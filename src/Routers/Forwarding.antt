-- ===== src/Routers/Forwarding.antt =====
-- What a socket forwards.
use nexobank_backend.Base.{◌≡◌, String, true, List, [], ◌∷◌, str_eq, if◌then◌else◌}
use nexobank_backend.Session.{Session}
use nexobank_backend.Workers.Notifying.{Message, user_channel}
use nexobank_backend.Routers.Socket.{
  Event, published, client_sends, client_leaves, Frame, connected, forwarded, pong, Socket,
}

-- the messages among the frames
abbrev pub messages : List Frame → List Message
messages [] = []
messages (connected u ∷ rest) = messages rest
messages (pong ∷ rest) = messages rest
messages (forwarded m ∷ rest) = m ∷ messages rest

-- the messages on a user's channel, up to the client's departure
abbrev pub heard : String → List Event → List Message
heard u [] = []
heard u (published p ∷ events) =
    let rest = heard u events in if str_eq p.0 (user_channel u) then p.1 ∷ rest else rest
heard u (client_sends value ∷ events) = heard u events
heard u (client_leaves ∷ events) = []

-- The client is there, and the forwarder runs on the subscription.
record Running (k : Socket) : Type 0 where
  there : k.client_there ≡ true
  forwards : k.forwarding ≡ true
  listens : k.subscribed ≡ true
