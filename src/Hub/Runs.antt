-- ===== src/Hub/Runs.antt =====
-- Runs of the hub of internal/ws, and the theorems on them.
use diginode_cc.Prelude.{ℕ, ◌≡◌, refl, Option, none, some, List, [], ◌∷◌, All, arith}
use diginode_cc.Hub.{
  Hub, Event, connected, unregistered, broadcasted, written, new_hub, client_send, connect,
  broadcast, run, ◌>>=◌,
}
use diginode_cc.Hub.Valid.{IsValid, Ends, new_hub-IsValid, register-Ends, run-IsValid}
use diginode_cc.Hub.Delivery.{Reached, broadcast-Reached}
use diginode_cc.Hub.Rejected.{connect-client_send}

-- Two clients of at most two, a third that is turned away, and the first one gone twice.
abbrev visits : List Event
visits =
    connected
    ∷ connected
    ∷ broadcasted (7 ∷ [])
    ∷ connected
    ∷ unregistered 0
    ∷ unregistered 0
    ∷ written 1 1
    ∷ []

clients_after : Option Hub → List (List ℕ)
clients_after none = []
clients_after (some h) = h.clients ∷ h.closed ∷ []

visits_end : clients_after (run visits (new_hub 2)) ≡ (1 ∷ []) ∷ (0 ∷ 2 ∷ []) ∷ []
unfolding run new_hub clients_after
visits_end = refl

run-IsValid_example : Ends IsValid (run visits (new_hub 2))
run-IsValid_example = run-IsValid 2 visits

-- A hub of one client at most, with its client.
abbrev one_client : Hub
one_client = record {
  clients = 0 ∷ [];
  max_clients = 1;
  next_client = 1;
  closed = [];
  queues = λ c. [];
}

one_client-IsValid : IsValid one_client
unfolding connect new_hub
one_client-IsValid = register-Ends (new_hub 1) (new_hub-IsValid 1)

broadcast-Reached_example :
    Ends (λ h'. All (Reached (7 ∷ []) one_client h') (0 ∷ [])) (broadcast (7 ∷ []) one_client)
broadcast-Reached_example = broadcast-Reached (7 ∷ []) one_client one_client-IsValid

connect-client_send_example : (connect one_client >>= λ h'. client_send 1 (7 ∷ []) h') ≡ none
connect-client_send_example =
    connect-client_send one_client (7 ∷ []) one_client-IsValid (omega arith) (omega arith)
