-- ===== src/Fleetsec/Recovery/Oldest.antt =====
-- The row that is evicted (internal/fleetsec/recovery_store.go): one of the table, and an oldest.
use mathlib.Core.Option.{some-injective}
use mathlib.Core.Path.{subst}
use diginode_cc.Prelude.{
  ℕ, ◌≤◌, ◌≡◌, refl, sym, ap, ◌∙◌, true, Option, none, some, List, [], ◌∷◌, ◌⊎◌, Bool-cases, inl,
  inr, All, All-map, arith,
}
use diginode_cc.Prelude.Sets.{contains, AreDistinct}
use diginode_cc.Prelude.Text.{eq_text}
use diginode_cc.Fleetsec.Recovery.{RecoveryPsk, slots, find_fp, earlier, oldest}
use diginode_cc.Fleetsec.Recovery.Slots.{earlier-elim}

abbrev pub Holds : RecoveryPsk → List RecoveryPsk → Type 0
Holds r [] = ⊥
Holds r (q ∷ rs) = (r ≡ q) ⊎ Holds r rs

Holds-slot :
    (r : RecoveryPsk) (rs : List RecoveryPsk) → Holds r rs → contains r.slot (slots rs) ≡ true
Holds-slot r [] h = absurd h
Holds-slot r (q ∷ rs) (inl e) =
    let same : r.slot ≡ q.slot = ap (λ p. p.slot) e in ground (arith, same)
Holds-slot r (q ∷ rs) (inr h) = ground (arith, Holds-slot r rs h)

pub Holds-same :
    (r q : RecoveryPsk) (rs : List RecoveryPsk)
    → AreDistinct (slots rs)
    → Holds r rs
    → Holds q rs
    → r.slot ≡ q.slot
    → r ≡ q
Holds-same r q [] d h h' e = absurd h
Holds-same r q (p ∷ rs) (new, d) (inl a) (inl b) e = a ∙ sym b
Holds-same r q (p ∷ rs) (new, d) (inl a) (inr h) e =
    let same : p.slot ≡ q.slot = sym (ap (λ p'. p'.slot) a) ∙ e in
    let held = Holds-slot q rs h in absurd (grind (arith, same, held, new))
Holds-same r q (p ∷ rs) (new, d) (inr h) (inl b) e =
    let same : p.slot ≡ r.slot = sym (ap (λ p'. p'.slot) b) ∙ sym e in
    let held = Holds-slot r rs h in absurd (grind (arith, same, held, new))
Holds-same r q (p ∷ rs) (new, d) (inr h) (inr h') e = Holds-same r q rs d h h' e

pub find_fp-Holds :
    (fp : List ℕ) (q : RecoveryPsk) (rs : List RecoveryPsk) → find_fp fp rs ≡ some q → Holds q rs
unfolding find_fp
find_fp-Holds fp q [] h = cc
find_fp-Holds fp q (r ∷ rs) h = elim (Bool-cases (eq_text r.fp fp)) [
  | inl e ↦ inl (sym (some-injective r q (rw e at h)))
  | inr e ↦ inr (find_fp-Holds fp q rs (rw e at h))
]

pub oldest-Holds :
    (rows : List RecoveryPsk) (old : RecoveryPsk) → oldest rows ≡ some old → Holds old rows
unfolding oldest
oldest-Holds [] old e = cc
oldest-Holds (r ∷ rs) old e =
    subst (λ q. Holds q (r ∷ rs)) (some-injective (earlier r (oldest rs)) old e)
      (earlier-elim (λ q. Holds q (r ∷ rs)) r (oldest rs) (inl refl)
        (λ s e'. inr (oldest-Holds rs s e')))

-- No row was added before that one.
abbrev pub IsOldest : RecoveryPsk → List RecoveryPsk → Type 0
IsOldest old rows = All (λ r. old.added_at ≤ r.added_at) rows

earlier_le :
    (r : RecoveryPsk) (o : Option RecoveryPsk)
    → (earlier r o).added_at ≤ r.added_at
      × ((s : RecoveryPsk) → o ≡ some s → (earlier r o).added_at ≤ s.added_at)
unfolding earlier
earlier_le r none = (omega arith, λ s e. cc)
earlier_le r (some t) = (
  ground arith,
  λ s e.
      let same : t.added_at ≡ s.added_at = ap (λ q. q.added_at) (some-injective t s e) in
      ground (arith, same),
)

oldest-none : (r : RecoveryPsk) (rs : List RecoveryPsk) → oldest rs ≡ none → IsOldest r rs
unfolding oldest
oldest-none r [] e = tt
oldest-none r (q ∷ rs) e = cc

earlier-IsOldest :
    (r : RecoveryPsk) (rs : List RecoveryPsk) (o : Option RecoveryPsk)
    → oldest rs ≡ o
    → ((s : RecoveryPsk) → o ≡ some s → IsOldest s rs)
    → IsOldest (earlier r o) rs
unfolding earlier
earlier-IsOldest r rs none e h = oldest-none r rs e
earlier-IsOldest r rs (some s) e h =
    let first = (earlier_le r (some s)).1 s refl in
    All-map (λ q le. omega (arith, le, first)) rs (h s refl)

pub oldest-IsOldest :
    (rows : List RecoveryPsk) (old : RecoveryPsk) → oldest rows ≡ some old → IsOldest old rows
unfolding oldest
oldest-IsOldest [] old e = tt
oldest-IsOldest (r ∷ rs) old e =
    subst (λ q. IsOldest q (r ∷ rs)) (some-injective (earlier r (oldest rs)) old e)
      (
        (earlier_le r (oldest rs)).0,
        earlier-IsOldest r rs (oldest rs) refl (λ s e'. oldest-IsOldest rs s e'),
      )
