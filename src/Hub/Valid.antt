-- ===== src/Hub/Valid.antt =====
-- What holds of a hub at all times (internal/ws/hub.go): nothing in `Run` closes a channel twice or
-- sends on a closed one, and the number of clients stays within its bound.
use diginode_cc.Prelude.{
  ℕ, ◌≤◌, ◌<◌, ◌≡◌, refl, true, false, Option, none, some, List, [], ◌∷◌, All, length, ltb, leb,
  ◌==◌, ◌&&◌, length-append, length-drop, Bool-cases, inl, inr, arith,
}
use diginode_cc.Prelude.Sets.{
  contains, remove, contains-remove, contains-remove_back, contains-remove_ne, contains-cons,
  AreDistinct, remove-AreDistinct, All-contains-remove, All-contains_self, length-remove,
}
use diginode_cc.Hub.{
  Hub, Message, Event, connected, unregistered, broadcasted, written, new_hub, close_send, is_full,
  enqueue, write_pump, register, connect, unregister, broadcast_to, broadcast_loop, broadcast,
  serve, run, ◌>>=◌,
}

-- A client of the hub has an open channel; clients and closed channels are of connections that were
-- made; a bound that is not 0 is kept, and no channel holds more messages than it has room for.
pub record IsValid (h : Hub) : Type 0 where
  pub is_open : (c : ℕ) → contains c h.clients ≡ true → contains c h.closed ≡ false
  pub clients_made : (c : ℕ) → contains c h.clients ≡ true → c < h.next_client
  pub closed_made : (c : ℕ) → contains c h.closed ≡ true → c < h.next_client
  pub distinct : AreDistinct h.clients
  pub bounded : 0 < h.max_clients → length h.clients ≤ h.max_clients
  pub roomy : (c : ℕ) → length (h.queues c) ≤ 256

-- The step ends without a panic, in a hub of which the predicate holds.
abbrev pub Ends : (Hub → Type 0) → Option Hub → Type 0
Ends P none = ⊥
Ends P (some h) = P h

pub new_hub-IsValid : (n : ℕ) → IsValid (new_hub n)
unfolding new_hub
new_hub-IsValid n = record {
  is_open = λ c h. refl;
  clients_made = λ c h. ground arith;
  closed_made = λ c h. ground arith;
  distinct = tt;
  bounded = λ p. omega arith;
  roomy = λ c. omega arith;
}

-- A client is cut off.
abbrev pub cut_off : ℕ → Hub → Hub
cut_off c h = record h { clients = remove c h.clients; closed = c ∷ h.closed }

pub cut_off-IsValid :
    (c : ℕ) (h : Hub) → IsValid h → contains c h.clients ≡ true → IsValid (cut_off c h)
cut_off-IsValid c h v m = record {
  is_open = λ d p.
      rw (contains-remove_ne d c h.clients p, v.is_open d (contains-remove_back d c h.clients p))
        refl;
  clients_made = λ d p. v.clients_made d (contains-remove_back d c h.clients p);
  closed_made = λ d p. elim (contains-cons d c h.closed p) [
    | inl e ↦ omega (arith, v.clients_made c m)
    | inr q ↦ v.closed_made d q
  ];
  distinct = remove-AreDistinct c h.clients v.distinct;
  bounded = λ p. omega (arith, v.bounded p, length-remove c h.clients);
  roomy = v.roomy;
}

close_send-cut_off :
    (c : ℕ) (h : Hub)
    → IsValid h
    → contains c h.clients ≡ true
    → close_send c (record h { clients = remove c h.clients }) ≡ some (cut_off c h)
unfolding close_send
close_send-cut_off c h v m = rw (v.is_open c m) refl

unregister-Ends : (c : ℕ) (h : Hub) → IsValid h → Ends IsValid (unregister c h)
unfolding unregister
unregister-Ends c h v = elim (Bool-cases (contains c h.clients)) [
  | inl m ↦ rw (m, close_send-cut_off c h v m) (cut_off-IsValid c h v m)
  | inr m ↦ rw m v
]

-- The number of the next client is that of no other.
module _ (h : Hub) (v : IsValid h) where
  fresh_client : contains h.next_client h.clients ≡ false
  fresh_client = elim (Bool-cases (contains h.next_client h.clients)) [
    | inl m ↦ absurd (omega (arith, v.clients_made h.next_client m))
    | inr m ↦ m
  ]

  pub fresh_closed : contains h.next_client h.closed ≡ false
  fresh_closed = elim (Bool-cases (contains h.next_client h.closed)) [
    | inl m ↦ absurd (omega (arith, v.closed_made h.next_client m))
    | inr m ↦ m
  ]

  other : (c : ℕ) → contains c h.clients ≡ true → (c == h.next_client) ≡ false
  other c p = ground (arith, v.clients_made c p)

  pub register-Ends : Ends IsValid (connect h)
  unfolding connect register close_send
  register-Ends = elim (Bool-cases (ltb 0 h.max_clients && leb h.max_clients (length h.clients))) [
    | inl full ↦
        rw (full, fresh_closed)
          (record {
            is_open = λ c p. rw (other c p, v.is_open c p) refl;
            clients_made = λ c p. omega (arith, v.clients_made c p);
            closed_made = λ c p. elim (contains-cons c h.next_client h.closed p) [
              | inl e ↦ omega arith
              | inr q ↦ omega (arith, v.closed_made c q)
            ];
            distinct = v.distinct;
            bounded = v.bounded;
            roomy = v.roomy;
          })
    | inr room ↦ rw room (record {
      is_open = λ c p. elim (contains-cons c h.next_client (remove h.next_client h.clients) p) [
        | inl e ↦ rw e fresh_closed
        | inr q ↦ v.is_open c (contains-remove_back c h.next_client h.clients q)
      ];
      clients_made = λ c p.
          elim (contains-cons c h.next_client (remove h.next_client h.clients) p) [
            | inl e ↦ omega arith
            | inr q ↦
                omega (arith, v.clients_made c (contains-remove_back c h.next_client h.clients q))
          ];
      closed_made = λ c p. omega (arith, v.closed_made c p);
      distinct = (
        contains-remove h.next_client h.clients,
        remove-AreDistinct h.next_client h.clients v.distinct,
      );
      bounded = λ p. ground (arith, length-remove h.next_client h.clients);
      roomy = v.roomy;
    })
  ]

queues-IsValid :
    (h : Hub) (q : ℕ → List Message)
    → ((c : ℕ) → length (q c) ≤ 256)
    → IsValid h
    → IsValid (record h { queues = q })
queues-IsValid h q room v = record {
  is_open = v.is_open;
  clients_made = v.clients_made;
  closed_made = v.closed_made;
  distinct = v.distinct;
  bounded = v.bounded;
  roomy = room;
}

-- A message that there is room for.
pub enqueue-IsValid :
    (c : ℕ) (message : Message) (h : Hub)
    → IsValid h
    → is_full c h ≡ false
    → IsValid (enqueue c message h)
enqueue-IsValid c message h v room =
    queues-IsValid h _
      (λ d. elim (Bool-cases (d == c)) [
        | inl e ↦ rw e (ground (arith, length-append (h.queues c) (message ∷ []), room))
        | inr e ↦ rw e (v.roomy d)
      ])
      v

write_pump-IsValid : (c n : ℕ) (h : Hub) → IsValid h → IsValid (write_pump c n h)
write_pump-IsValid c n h v =
    queues-IsValid h _
      (λ d. elim (Bool-cases (d == c)) [
        | inl e ↦ rw e (omega (arith, length-drop n (h.queues c), v.roomy c))
        | inr e ↦ rw e (v.roomy d)
      ])
      v

pub Ends-map :
    {P Q : Hub → Type 0} → ((h : Hub) → P h → Q h) → (o : Option Hub) → Ends P o → Ends Q o
Ends-map f none e = e
Ends-map f (some h) e = f h e

Ends->>= :
    {P : Hub → Type 0} (o : Option Hub) (f : Hub → Option Hub)
    → Ends P o
    → ((h : Hub) → P h → Ends P (f h))
    → Ends P (o >>= f)
Ends->>= none f e k = e
Ends->>= (some h) f e k = k h e

-- The clients that the loop of a broadcast has still to reach are all different, and in the hub.
broadcast_loop-Ends :
    (cs : List ℕ) (message : Message) (h : Hub)
    → IsValid h
    → AreDistinct cs
    → All (λ c. contains c h.clients ≡ true) cs
    → Ends IsValid (broadcast_loop cs message h)
unfolding broadcast_loop broadcast_to
broadcast_loop-Ends [] message h v d ms = v
broadcast_loop-Ends (c ∷ cs) message h v (new, d) (m, ms) = elim (Bool-cases (is_full c h)) [
  | inl full ↦
      rw (v.is_open c m, full)
        (broadcast_loop-Ends cs message (cut_off c h) (cut_off-IsValid c h v m) d
          (All-contains-remove c cs h.clients new ms))
  | inr room ↦
      rw (v.is_open c m, room)
        (broadcast_loop-Ends cs message (enqueue c message h) (enqueue-IsValid c message h v room) d
          ms)
]

serve-Ends : (e : Event) (h : Hub) → IsValid h → Ends IsValid (serve e h)
unfolding serve broadcast
serve-Ends connected h v = register-Ends h v
serve-Ends (unregistered c) h v = unregister-Ends c h v
serve-Ends (broadcasted message) h v =
    broadcast_loop-Ends h.clients message h v v.distinct (All-contains_self h.clients)
serve-Ends (written c n) h v = write_pump-IsValid c n h v

run-Ends : (es : List Event) (h : Hub) → IsValid h → Ends IsValid (run es h)
unfolding run
run-Ends [] h v = v
run-Ends (e ∷ es) h v =
    Ends->>= (serve e h) (λ h'. run es h') (serve-Ends e h v) (λ h' v'. run-Ends es h' v')

-- A hub never panics: whatever clients connect, whichever of them unregister, as often as they do,
-- whatever is broadcast and written in between, `Run` closes no channel twice and sends on no
-- closed channel. Its clients then have open channels, are all different, and are at most as many
-- as the bound that the hub was made with, if that is not 0; no channel holds more than 256
-- messages.
pub run-IsValid : (max : ℕ) (es : List Event) → Ends IsValid (run es (new_hub max))
run-IsValid max es = run-Ends es (new_hub max) (new_hub-IsValid max)
