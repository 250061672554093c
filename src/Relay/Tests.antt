-- ===== src/Relay/Tests.antt =====
-- Runs of the relay: a target registers, a dialer asks for it, and two messages cross.
use gpu_share.Relay.Ends.{proxy_messages_ends}
use gpu_share.Relay.Proxied.{is_broken, proxy_messages-IsRelayed, IsRelayed}
use gpu_share.Relay.Waiting.{handle_connection-bridged, get-serve, latest, wants}
use gpu_share.Relay.{
  Registrations, bridged, parse_text, forward, parse_command, round, on_command, relay_request,
  Proxying, proxy_messages, serve, handle_connection,
}
use gpu_share.Base.{
  strip_text, String, Bool, true, false, none, some, List, [], ◌∷◌, ◌≡◌, ◌≢◌, refl, arith, nat_eq,
  string_eq, ◌⊎◌,
}
use gpu_share.Common.{ok, Result}
use gpu_share.Base.Map
use gpu_share.Base.Map.{Map}
use gpu_share.Network.{Conn, ConnectionMode, recv, send}
use gpu_share.Protocol.{Message, error, ping, pong}

abbrev opened : List (Result Message) → Conn
opened inbox = record {
  inbox = inbox;
  sent = [];
  link = ok tt;
  is_closed = false;
  peer_node_id = none;
  peer_name = none;
  connection_mode = ConnectionMode.direct;
}

abbrev target : Conn
target = opened (ok (error "RELAY_REGISTER:n1") ∷ ok (pong 1) ∷ [])

abbrev asking : Conn
asking = opened (ok (error "RELAY_REQUEST:n1") ∷ ok (ping 1) ∷ [])

abbrev nobody : Registrations
nobody = []

abbrev waiting : Conn
waiting = opened (ok (pong 1) ∷ [])

abbrev dialer : Conn
dialer = opened (ok (ping 1) ∷ [])

get-serve_example :
    Map.get "n1" (serve (target ∷ asking ∷ target ∷ []) nobody)
    ≡ latest "n1" (target ∷ asking ∷ target ∷ []) (Map.get "n1" nobody)
get-serve_example = get-serve "n1" (target ∷ asking ∷ target ∷ []) nobody

asking_works : handle_connection asking (serve (target ∷ []) []) ≡ ([], bridged dialer waiting)
unfolding handle_connection serve on_command parse_command parse_text recv strip_text Map.insert
    Map.get Map.remove
asking_works = refl

handle_connection-bridged_example :
    (id : String) × (wants asking ≡ relay_request id)
    × (latest id (target ∷ []) none ≡ some waiting)
    × (Map.get id nobody ≡ none)
    × (dialer ≡ (recv asking).0)
handle_connection-bridged_example =
    handle_connection-bridged (target ∷ []) asking dialer waiting [] asking_works

abbrev turns : List Bool
turns = true ∷ false ∷ true ∷ []

turns_work : is_broken (proxy_messages turns dialer waiting).state ≡ false
unfolding proxy_messages round forward recv send
turns_work = refl

proxy_messages-IsRelayed_example : IsRelayed dialer waiting (proxy_messages turns dialer waiting)
proxy_messages-IsRelayed_example = proxy_messages-IsRelayed turns dialer waiting turns_work

proxy_messages_ends_example :
    ((proxy_messages turns dialer waiting).state ≢ Proxying.running)
    × ((proxy_messages turns dialer waiting).state ≡ Proxying.closed
        → ((proxy_messages turns dialer waiting).left.inbox ≡ [])
          ⊎ ((proxy_messages turns dialer waiting).right.inbox ≡ []))
proxy_messages_ends_example = proxy_messages_ends turns dialer waiting (omega arith)
