-- ===== src/Hub/Rejected.antt =====
-- A client that is turned away (internal/ws/hub.go, and `handleWebSocket` of internal/api/server.go,
-- which calls `Register` and then `Send` on the same client).
use diginode_cc.Prelude.{◌≤◌, ◌<◌, ◌≡◌, refl, true, ◌&&◌, none, length, ltb, leb, arith}
use diginode_cc.Prelude.Assoc.{same_key}
use diginode_cc.Hub.{Hub, Message, close_send, register, connect, client_send, ◌>>=◌}
use diginode_cc.Hub.Valid.{IsValid, fresh_closed}

-- A hub that has as many clients as it may have closes the channel of the next one, and the init
-- event that is then sent to it panics.
pub connect-client_send :
    (h : Hub) (message : Message)
    → IsValid h
    → 0 < h.max_clients
    → h.max_clients ≤ length h.clients
    → (connect h >>= λ h'. client_send h.next_client message h') ≡ none
unfolding connect register close_send client_send
connect-client_send h message v bounded full =
    let full' : (ltb 0 h.max_clients && leb h.max_clients (length h.clients)) ≡ true =
      ground arith in
    rw (full', fresh_closed h v, same_key h.next_client) refl
