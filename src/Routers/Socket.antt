-- ===== src/Routers/Socket.antt =====
-- app/api/v1/routers/websockets.py: the connection as a state that events change.
use nexobank_backend.Base.{
  String, Bool, true, false, ◌&&◌, ◌||◌, Option, none, some, List, [], ◌∷◌, ◌++◌, str_eq, is_text,
  if◌then◌else◌,
}
use nexobank_backend.Session.{Env, Action, pure, ◌>>=◌}
use nexobank_backend.Security.{decode_access_token}
use nexobank_backend.Workers.Notifying.{Message, Publication, user_channel}

-- What happens while the socket is open: a publication in Redis, a JSON value of the client with its
-- field "type" (`none` is what `receive_json` or `data.get` raises on), and the client's departure.
pub data Event : Type 0 where
  published : Publication → Event
  client_sends : Option (Option String) → Event
  client_leaves : Event

-- what the server sends
pub data Frame : Type 0 where
  connected : String → Frame
  forwarded : Message → Frame
  pong : Frame

-- The two tasks, `redis_forwarder` and `client_handler`, are running or over; the subscription ends
-- when both are.
pub record Socket : Type 0 where
  pub user_id : String
  pub sent : List Frame
  pub client_there : Bool
  pub handling : Bool
  pub forwarding : Bool
  pub subscribed : Bool

-- the start of `websocket_notifications` for an accepted token
unfoldable pub accept : String → Socket
accept user_id = record {
  user_id = user_id;
  sent = connected user_id ∷ [];
  client_there = true;
  handling = true;
  forwarding = true;
  subscribed = true;
}

-- `asyncio.gather` returns when both tasks are over; then `finally` unsubscribes
unfoldable pub close_if_over : Socket → Socket
close_if_over k = if k.handling || k.forwarding then k else record k { subscribed = false }

-- one message in `redis_forwarder`: a send to a client that has left raises, which ends the task
unfoldable pub forward : Socket → Publication → Socket
forward k p =
    if k.subscribed && k.forwarding && str_eq p.0 (user_channel k.user_id)
    then (if k.client_there
        then record k { sent = k.sent ++ forwarded p.1 ∷ [] }
        else record k { forwarding = false })
    else k

-- one value in `client_handler`
unfoldable pub answer : Socket → Option (Option String) → Socket
answer k none = record k { handling = false }
answer k (some type) = if is_text "ping" type then record k { sent = k.sent ++ pong ∷ [] } else k

unfoldable pub on_event : Socket → Event → Socket
on_event k (published p) = close_if_over (forward k p)
on_event k (client_sends value) =
    if k.handling && k.client_there then close_if_over (answer k value) else k
on_event k client_leaves = close_if_over (record k { client_there = false; handling = false })

unfoldable pub serve_socket : Socket → List Event → Socket
serve_socket k [] = k
serve_socket k (e ∷ events) = serve_socket (on_event k e) events

-- `websocket_notifications`: `none` is a socket that is closed with 1008, before it is accepted
unfoldable pub websocket_notifications : Env → String → List Event → Action (Option Socket)
websocket_notifications env token events = do
  subject ← decode_access_token env token
  elim subject [
    | none ↦ pure none
    | some user_id ↦ pure (some (serve_socket (accept user_id) events))
  ]
