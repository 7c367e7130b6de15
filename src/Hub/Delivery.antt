-- ===== src/Hub/Delivery.antt =====
-- Whom a broadcast reaches (internal/ws/hub.go).
use diginode_cc.Prelude.{
  ℕ, ◌≡◌, refl, ap, ◌∙◌, true, false, List, [], ◌∷◌, ◌++◌, All, length, leb, ◌==◌, Bool-cases, inl,
  inr, arith,
}
use diginode_cc.Prelude.Sets.{
  contains, contains-remove, contains-remove_other, AreDistinct, All-contains-remove,
  All-contains_self,
}
use diginode_cc.Prelude.Assoc.{same_key}
use diginode_cc.Hub.{
  Hub, Message, send_capacity, is_full, enqueue, close_send, broadcast_to, broadcast_loop,
  broadcast,
}
use diginode_cc.Hub.Valid.{IsValid, Ends, Ends-map, cut_off, cut_off-IsValid, enqueue-IsValid}

-- What a broadcast does to a client: one with room in its channel gets the message behind those
-- that it has, and stays; one without is cut off, and gets nothing.
abbrev pub Reached : Message → Hub → Hub → ℕ → Type 0
Reached message h h' c =
    (is_full c h ≡ false
      → (h'.queues c ≡ h.queues c ++ (message ∷ [])) × (contains c h'.clients ≡ true))
    × (is_full c h ≡ true
        → (h'.queues c ≡ h.queues c)
          × (contains c h'.clients ≡ false)
          × (contains c h'.closed ≡ true))

-- A client that a step does not touch.
abbrev Same : Hub → Hub → ℕ → Type 0
Same h h' d =
    (h'.queues d ≡ h.queues d)
    × (contains d h'.clients ≡ contains d h.clients)
    × (contains d h'.closed ≡ contains d h.closed)

Same-trans : (h h1 h' : Hub) (d : ℕ) → Same h h1 d → Same h1 h' d → Same h h' d
Same-trans h h1 h' d (q, m, k) (q', m', k') = (q' ∙ q, m' ∙ m, k' ∙ k)

Reached-Same :
    (message : Message) (h h1 h' : Hub) (c : ℕ)
    → Same h h1 c
    → Reached message h1 h' c
    → Reached message h h' c
Reached-Same message h h1 h' c (q, m, k) (kept, cut) = (
  λ room.
      let (e, here) = kept (ap (λ l. leb send_capacity (length l)) q ∙ room) in
      (e ∙ ap (λ l. l ++ (message ∷ [])) q, here),
  λ full.
      let (e, out, off) = cut (ap (λ l. leb send_capacity (length l)) q ∙ full) in
      (e ∙ q, out, off),
)

module _ (message : Message) (c : ℕ) (h : Hub) where
  cut_off-Same : (d : ℕ) → (d == c) ≡ false → Same h (cut_off c h) d
  cut_off-Same d e = (refl, contains-remove_other d c h.clients (ground arith), rw e refl)

  enqueue-Same : (d : ℕ) → (d == c) ≡ false → Same h (enqueue c message h) d
  enqueue-Same d e = (rw e refl, refl, refl)

  cut_off-Reached :
      (h' : Hub) → is_full c h ≡ true → Same (cut_off c h) h' c → Reached message h h' c
  cut_off-Reached h' full (q, m, k) =
      (λ room. ground arith, λ _. (q, m ∙ contains-remove c h.clients, k ∙ rw (same_key c) refl))

  enqueue-Reached :
      (h' : Hub)
      → is_full c h ≡ false
      → contains c h.clients ≡ true
      → Same (enqueue c message h) h' c
      → Reached message h h' c
  enqueue-Reached h' room here (q, m, k) =
      (λ _. (q ∙ rw (same_key c) refl, m ∙ here), λ full. ground arith)

-- The loop touches the clients that it reaches, and no others.
abbrev Loops : List ℕ → Message → Hub → Hub → Type 0
Loops cs message h h' =
    ((d : ℕ) → contains d cs ≡ false → Same h h' d) × All (Reached message h h') cs

All-Reached-Same :
    (message : Message) (c : ℕ) (cs : List ℕ) (h h1 h' : Hub)
    → contains c cs ≡ false
    → ((d : ℕ) → (d == c) ≡ false → Same h h1 d)
    → All (Reached message h1 h') cs
    → All (Reached message h h') cs
All-Reached-Same message c [] h h1 h' new same r = tt
All-Reached-Same message c (e ∷ cs) h h1 h' new same (r, rs) = (
  Reached-Same message h h1 h' e (same e (ground arith)) r,
  All-Reached-Same message c cs h h1 h' (ground arith) same rs,
)

Loops-cons :
    (message : Message) (c : ℕ) (cs : List ℕ) (h h1 h' : Hub)
    → contains c cs ≡ false
    → ((d : ℕ) → (d == c) ≡ false → Same h h1 d)
    → (Same h1 h' c → Reached message h h' c)
    → Loops cs message h1 h'
    → Loops (c ∷ cs) message h h'
Loops-cons message c cs h h1 h' new same reached (frame, rs) = (
  λ d out. Same-trans h h1 h' d (same d (ground arith)) (frame d (ground arith)),
  (reached (frame c new), All-Reached-Same message c cs h h1 h' new same rs),
)

broadcast_loop-Loops :
    (cs : List ℕ) (message : Message) (h : Hub)
    → IsValid h
    → AreDistinct cs
    → All (λ c. contains c h.clients ≡ true) cs
    → Ends (Loops cs message h) (broadcast_loop cs message h)
unfolding broadcast_loop broadcast_to close_send
broadcast_loop-Loops [] message h v d ms = (λ d _. (refl, refl, refl), tt)
broadcast_loop-Loops (c ∷ cs) message h v (new, d) (m, ms) = elim (Bool-cases (is_full c h)) [
  | inl full ↦
      rw (v.is_open c m, full)
        (Ends-map
          (λ h'.
            Loops-cons message c cs h (cut_off c h) h' new (cut_off-Same message c h)
              (cut_off-Reached message c h h' full))
          (broadcast_loop cs message (cut_off c h))
          (broadcast_loop-Loops cs message (cut_off c h) (cut_off-IsValid c h v m) d
            (All-contains-remove c cs h.clients new ms)))
  | inr room ↦
      rw (v.is_open c m, room)
        (Ends-map
          (λ h'.
            Loops-cons message c cs h (enqueue c message h) h' new (enqueue-Same message c h)
              (enqueue-Reached message c h h' room m))
          (broadcast_loop cs message (enqueue c message h))
          (broadcast_loop-Loops cs message (enqueue c message h)
            (enqueue-IsValid c message h v room) d ms))
]

-- A broadcast of a valid hub ends, and reaches each of its clients: one with room in its channel
-- gets the message, behind those that it has, and stays a client; one without gets nothing, is no
-- client any more, and its channel is closed.
pub broadcast-Reached :
    (message : Message) (h : Hub)
    → IsValid h
    → Ends (λ h'. All (Reached message h h') h.clients) (broadcast message h)
unfolding broadcast
broadcast-Reached message h v =
    Ends-map (λ h' l. l.1) (broadcast_loop h.clients message h)
      (broadcast_loop-Loops h.clients message h v v.distinct (All-contains_self h.clients))
