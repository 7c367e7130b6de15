-- ===== src/Meshtastic/Dedup/Unpruned.antt =====
-- The pruning of `isDuplicate` against a filter that forgets nothing
-- (internal/meshtastic/dispatcher.go).
use diginode_cc.Prelude.{
  ℕ, ◌+◌, ◌≤◌, ◌≡◌, refl, sym, ap, ◌∙◌, Bool, true, false, Option, none, some, List, [], ◌∷◌, ltb,
  ◌==◌, ==_iff, if◌then◌else◌, Bool-cases, inl, inr, ◌⊎◌, arith, length,
}
use diginode_cc.Prelude.Assoc.{lookup, put, IsMap, put-IsMap, lookup-put_other}
use diginode_cc.Meshtastic.Dedup.{
  Seen, dedup_window, max_seen, is_recent, prune, prune_if_full, see,
}

-- The filter that keeps the time of every packet that it let pass.
pub see_unpruned : ℕ → ℕ → Seen → Seen × Bool
see_unpruned now k m = if is_recent now (lookup k m) then (m, true) else (put k now m, false)

unfoldable pub see_all : List (ℕ × ℕ) → Seen → List Bool
unfolding see
see_all [] m = []
see_all ((k, now) ∷ ps) m = let (m', dup) = see now k m in dup ∷ see_all ps m'

unfoldable pub see_all_unpruned : List (ℕ × ℕ) → Seen → List Bool
unfolding see_unpruned
see_all_unpruned [] m = []
see_all_unpruned ((k, now) ∷ ps) m =
    let (m', dup) = see_unpruned now k m in dup ∷ see_all_unpruned ps m'

-- An entry is kept, or it is gone and its time is over.
abbrev pub Forgotten : ℕ → Option ℕ → Option ℕ → Type 0
Forgotten now o o' = (o' ≡ o) ⊎ ((o' ≡ none) × (is_recent now o ≡ false))

prune-absent : (now k : ℕ) (m : Seen) → lookup k m ≡ none → lookup k (prune now m) ≡ none
unfolding prune
prune-absent now k [] h = refl
prune-absent now k ((i, t) ∷ m) h = ground (arith, prune-absent now k m)

prune-IsMap : (now : ℕ) (m : Seen) → IsMap m → IsMap (prune now m)
unfolding prune
prune-IsMap now [] d = tt
prune-IsMap now ((i, t) ∷ m) (new, d) = elim (Bool-cases (ltb (t + dedup_window) now)) [
  | inl e ↦ rw e (prune-IsMap now m d)
  | inr e ↦ rw e (prune-absent now i m new, prune-IsMap now m d)
]

prune-Forgotten :
    (now k : ℕ) (m : Seen) → IsMap m → Forgotten now (lookup k m) (lookup k (prune now m))
unfolding prune
prune-Forgotten now k [] d = inl refl
prune-Forgotten now k ((i, t) ∷ m) (new, d) = elim (Bool-cases (ltb (t + dedup_window) now)) [
  | inl old ↦ rw old (elim (Bool-cases (k == i)) [
    | inl e ↦
        let same : k ≡ i = (==_iff k i).0 e in
        rw e (inr (rw same (prune-absent now i m new), ground arith))
    | inr e ↦ rw e (prune-Forgotten now k m d)
  ])
  | inr young ↦ rw young (elim (Bool-cases (k == i)) [
    | inl e ↦ rw e (inl refl)
    | inr e ↦ rw e (prune-Forgotten now k m d)
  ])
]

prune_if_full-IsMap : (now : ℕ) (m : Seen) → IsMap m → IsMap (prune_if_full now m)
unfolding prune_if_full
prune_if_full-IsMap now m d = elim (Bool-cases (ltb max_seen (length m))) [
  | inl e ↦ rw e (prune-IsMap now m d)
  | inr e ↦ rw e d
]

pub prune_if_full-Forgotten :
    (now k : ℕ) (m : Seen) → IsMap m → Forgotten now (lookup k m) (lookup k (prune_if_full now m))
unfolding prune_if_full
prune_if_full-Forgotten now k m d = elim (Bool-cases (ltb max_seen (length m))) [
  | inl e ↦ rw e (prune-Forgotten now k m d)
  | inr e ↦ rw e (inl refl)
]

Forgotten-later :
    (now later : ℕ) (o o' : Option ℕ) → now ≤ later → Forgotten now o o' → Forgotten later o o'
Forgotten-later now later o o' h (inl e) = inl e
Forgotten-later now later none o' h (inr (e, f)) = inr (e, refl)
Forgotten-later now later (some t) o' h (inr (e, f)) = inr (e, ground arith)

Forgotten-trans :
    (now : ℕ) (o o1 o2 : Option ℕ) → Forgotten now o o1 → Forgotten now o1 o2 → Forgotten now o o2
Forgotten-trans now o o1 o2 p (inl e) = rw e p
Forgotten-trans now o o1 o2 (inl e) (inr (gone, old)) = inr (gone, rw e at old)
Forgotten-trans now o o1 o2 (inr (gone1, old1)) (inr (gone, old)) = inr (gone, old1)

Forgotten-is_recent :
    (now : ℕ) (o o' : Option ℕ) → Forgotten now o o' → is_recent now o' ≡ is_recent now o
Forgotten-is_recent now o o' (inl e) = ap (is_recent now) e
Forgotten-is_recent now o o' (inr (gone, old)) = ap (is_recent now) gone ∙ sym old

-- The second map is the first less what a filter may forget at that time.
abbrev IsPruned : ℕ → Seen → Seen → Type 0
IsPruned now m m' = IsMap m' × ((k : ℕ) → Forgotten now (lookup k m) (lookup k m'))

IsPruned-put :
    (now k : ℕ) (m m' : Seen)
    → IsPruned now m m'
    → IsPruned now (put k now m) (prune_if_full now (put k now m'))
IsPruned-put now k m m' (d, r) = (
  prune_if_full-IsMap now (put k now m') d',
  λ j.
      Forgotten-trans now (lookup j (put k now m)) (lookup j (put k now m'))
        (lookup j (prune_if_full now (put k now m'))) (both j)
        (prune_if_full-Forgotten now j (put k now m') d'),
)
  where
    d' : IsMap (put k now m')
    d' = put-IsMap k now m' d

    both : (j : ℕ) → Forgotten now (lookup j (put k now m)) (lookup j (put k now m'))
    both j = elim (Bool-cases (j == k)) [
      | inl e ↦ rw e (inl refl)
      | inr e ↦
          rw (lookup-put_other j k now m (ground arith), lookup-put_other j k now m' (ground arith))
            (r j)
    ]

-- Times that do not go back.
abbrev pub Rising : ℕ → List (ℕ × ℕ) → Type 0
Rising t [] = Unit
Rising t ((k, now) ∷ ps) = (t ≤ now) × Rising now ps

see_all-IsPruned :
    (t : ℕ) (ps : List (ℕ × ℕ)) (m m' : Seen)
    → Rising t ps
    → IsPruned t m m'
    → see_all ps m' ≡ see_all_unpruned ps m
unfolding see_all see_all_unpruned see see_unpruned
see_all-IsPruned t [] m m' h p = refl
see_all-IsPruned t ((k, now) ∷ ps) m m' (h, hs) (d, r) =
    let r' : (j : ℕ) → Forgotten now (lookup j m) (lookup j m') =
      λ j. Forgotten-later t now (lookup j m) (lookup j m') h (r j) in
    let same : is_recent now (lookup k m') ≡ is_recent now (lookup k m) =
      Forgotten-is_recent now (lookup k m) (lookup k m') (r' k) in
    elim (Bool-cases (is_recent now (lookup k m))) [
      | inl e ↦ rw (same, e) (ap (λ l. true ∷ l) (see_all-IsPruned now ps m m' hs (d, r')))
      | inr e ↦
          rw (same, e)
            (ap (λ l. false ∷ l)
              (see_all-IsPruned now ps (put k now m) (prune_if_full now (put k now m')) hs
                (IsPruned-put now k m m' (d, r'))))
    ]

-- On packets that arrive at times that do not go back, the filter of a new dispatcher, which
-- forgets old packets when it holds more than 512, lets pass the very packets that one lets pass
-- which forgets none.
pub see_all-unpruned : (ps : List (ℕ × ℕ)) → Rising 0 ps → see_all ps [] ≡ see_all_unpruned ps []
see_all-unpruned ps h = see_all-IsPruned 0 ps [] [] h (tt, λ k. inl refl)
