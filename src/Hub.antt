-- ===== src/Hub.antt =====
-- The WebSocket hub of internal/ws/hub.go and the send side of its clients (internal/ws/client.go).
-- A client is the number that `NewClient` gives it, each a new one, its channel `send` the list of
-- the messages in it, and `none` a panic: a close of, or a send on, a channel that is closed. What
-- the loop of `Run` does with one message of its channels is a step; it serves them one at a time.
pub mod Valid
pub mod Delivery
pub mod Rejected
mod Runs
use diginode_cc.Prelude.{
  ℕ, ◌+◌, Bool, true, false, ◌&&◌, Option, none, some, List, [], ◌∷◌, ◌++◌, ltb, leb, ◌==◌,
  if◌then◌else◌, length, drop,
}
use diginode_cc.Prelude.Sets.{contains, remove}

abbrev pub Message : Type 0
Message = List ℕ

-- `make(chan []byte, 256)`
abbrev pub send_capacity : ℕ
send_capacity = 256

pub record Hub : Type 0 where
  pub clients : List ℕ
  pub max_clients : ℕ
  pub next_client : ℕ  -- the number that `NewClient` gives next
  pub closed : List ℕ  -- the clients whose channel is closed
  pub queues : ℕ → List Message  -- what is in the channels

unfoldable pub new_hub : ℕ → Hub
new_hub max_clients = record {
  clients = [];
  max_clients = max_clients;
  next_client = 0;
  closed = [];
  queues = λ c. [];
}

-- `close(client.send)`
unfoldable pub close_send : ℕ → Hub → Option Hub
close_send c h = if contains c h.closed then none else some (record h { closed = c ∷ h.closed })

abbrev pub is_full : ℕ → Hub → Bool
is_full c h = leb send_capacity (length (h.queues c))

abbrev pub enqueue : ℕ → Message → Hub → Hub
enqueue c message h = record h {
  queues = λ d. if d == c then h.queues c ++ (message ∷ []) else h.queues d;
}

-- `Client.Send`: a message for which there is no room is dropped.
unfoldable pub client_send : ℕ → Message → Hub → Option Hub
client_send c message h =
    if contains c h.closed then none else some (if is_full c h then h else enqueue c message h)

-- `NewClient`, and the case of `h.register`.
unfoldable pub register : ℕ → Hub → Option Hub
unfolding close_send
register c h =
    if ltb 0 h.max_clients && leb h.max_clients (length h.clients)
    then close_send c h
    else some (record h { clients = c ∷ remove c h.clients })

unfoldable pub connect : Hub → Option Hub
unfolding register
connect h = register h.next_client (record h { next_client = h.next_client + 1 })

-- The case of `h.unregister`.
unfoldable pub unregister : ℕ → Hub → Option Hub
unfolding close_send
unregister c h =
    if contains c h.clients
    then close_send c (record h { clients = remove c h.clients })
    else some h

-- One client in the loop of `h.broadcast`: a client whose channel is full is cut off.
unfoldable pub broadcast_to : ℕ → Message → Hub → Option Hub
unfolding close_send
broadcast_to c message h =
    if contains c h.closed
    then none
    else if is_full c h
    then close_send c (record h { clients = remove c h.clients })
    else some (enqueue c message h)

infixl 5 ◌>>=◌
abbrev pub ◌>>=◌ : Option Hub → (Hub → Option Hub) → Option Hub
none >>= f = none
some h >>= f = f h

unfoldable pub broadcast_loop : List ℕ → Message → Hub → Option Hub
unfolding broadcast_to
broadcast_loop [] message h = some h
broadcast_loop (c ∷ cs) message h = broadcast_to c message h >>= λ h'. broadcast_loop cs message h'

-- The case of `h.broadcast`.
unfoldable pub broadcast : Message → Hub → Option Hub
unfolding broadcast_loop
broadcast message h = broadcast_loop h.clients message h

-- `WritePump` takes so many messages out of a channel.
abbrev pub write_pump : ℕ → ℕ → Hub → Hub
write_pump c n h = record h { queues = λ d. if d == c then drop n (h.queues c) else h.queues d }

-- What happens to a hub: a connection, `Unregister` by any client, a broadcast, or writing.
pub data Event : Type 0 where
  connected : Event
  unregistered : ℕ → Event
  broadcasted : Message → Event
  written : ℕ → ℕ → Event

unfoldable pub serve : Event → Hub → Option Hub
unfolding connect unregister broadcast
serve connected h = connect h
serve (unregistered c) h = unregister c h
serve (broadcasted message) h = broadcast message h
serve (written c n) h = some (write_pump c n h)

-- The loop of `Run` on what arrives.
unfoldable pub run : List Event → Hub → Option Hub
unfolding serve
run [] h = some h
run (e ∷ es) h = serve e h >>= λ h'. run es h'
