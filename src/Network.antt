-- ===== src/Network.antt =====
-- Connections of crates/gpumesh-network/src/: the framed channel of peer_conn.rs, the dialling of
-- endpoint.rs and the relay's client of relay.rs. QUIC is a parameter: what a connection will give,
-- and the answer to a dial.
pub mod Channel
use gpu_share.Protocol.{error, Message}
use gpu_share.Base.{
  good, strip_text, bad, Parsed, unwrap_or, ℕ, zero, suc, String, Bool, true, false, Option, none,
  some, List, [], ◌∷◌, ◌++◌, inl, inr, ◌≡◌, ◌≢◌, refl, ap, sym, arith, if◌then◌else◌, ◌==◌, nat_eq,
  string_eq, ◌+◌, ◌-◌, ◌*◌, ◌≤◌, ◌<◌, min, max, ◌&&◌, ◌||◌, not, ◌&◌, ◌⊎◌, ◌↔◌, length,
}
use gpu_share.Common.{display, GpuMeshError, network, ok, err, ◌>>=◌, ◌>>◌, Result}

-- How a connection came about.
pub data ConnectionMode : Type 0 where
  direct relay : ConnectionMode

-- `inbox` is what the connection will still give, errors of the codec included; at its end the
-- peer has closed. `link` is the answer of the stream to a write.
pub record Conn : Type 0 where
  pub inbox : List (Result Message)
  pub sent : List Message
  pub link : Result (Unit {0})
  pub is_closed : Bool
  pub peer_node_id : Option String
  pub peer_name : Option String
  pub connection_mode : ConnectionMode

unfoldable pub send : Message → Conn → Conn × Result (Unit {0})
send m conn = elim conn.link [
  | err e ↦ (conn, err e)
  | ok _ ↦ (record conn { sent = conn.sent ++ m ∷ [] }, ok tt)
]

unfoldable pub recv : Conn → Conn × Result (Option Message)
recv conn = elim conn.inbox [
  | [] ↦ (conn, ok none)
  | err e ∷ rest ↦ (record conn { inbox = rest }, err e)
  | ok m ∷ rest ↦ (record conn { inbox = rest }, ok (some m))
]

unfoldable pub close : Conn → Conn
close conn = record conn { is_closed = true }

-- `dial_any`: the first address that answers, or the last error.
unfoldable pub dial_from : (String → Result Conn) → GpuMeshError → List String → Result Conn
dial_from dial last_err [] = err last_err
dial_from dial last_err (addr ∷ addrs) = elim (dial addr) [
  | ok c ↦ ok c
  | err e ↦ dial_from dial e addrs
]

unfoldable pub dial_any : (String → Result Conn) → List String → Result Conn
unfolding dial_from
dial_any dial addrs = dial_from dial (network "no addresses") addrs

abbrev strip_scheme : String → String
strip_scheme relay_addr = unwrap_or (strip_text "relay://" relay_addr) relay_addr

abbrev rewrapped : {A : Type 0} → Result A → Result A
rewrapped (ok a) = ok a
rewrapped (err e) = err (network (display e))

abbrev first_socket : String → List String → Result String
first_socket relay_addr [] = err (network ("relay " & relay_addr & " resolved no addresses"))
first_socket relay_addr (s ∷ ss) = ok s

abbrev resolved : String → Parsed (List String) → Result (List String)
resolved relay_addr (bad e) = err (network ("cannot resolve relay " & relay_addr & ": " & e))
resolved relay_addr (good sockets) = ok sockets

-- `RelayClient::connect`. `lookup_host` is given the address without the scheme.
unfoldable pub connect :
    (String → Parsed (List String)) → (String → Result Conn) → String → Result Conn
connect lookup_host dial relay_addr =
    let bare = strip_scheme relay_addr in
    resolved bare (lookup_host bare) >>= λ sockets.
    first_socket bare sockets >>= λ socket. dial socket

-- The command that opens a relayed connection, and the connection after it.
abbrev command : String → Conn → Result Conn
command text conn =
    let (c, r) = send (error text) conn in r >> ok (record c { connection_mode = relay })

unfoldable pub register :
    (String → Parsed (List String)) → (String → Result Conn) → String → String → Result Conn
unfolding connect send
register lookup_host dial relay_addr node_id =
    connect lookup_host dial relay_addr >>= command ("RELAY_REGISTER:" & node_id)

-- An error of the write is wrapped once more.
unfoldable pub dial_via :
    (String → Parsed (List String)) → (String → Result Conn) → String → String → Result Conn
unfolding connect send
dial_via lookup_host dial relay_addr peer_node_id = connect lookup_host dial relay_addr >>= λ conn.
    rewrapped (command ("RELAY_REQUEST:" & peer_node_id) conn)

-- The relay is that of the environment, if it names one.
unfoldable pub dial_with_fallback :
    (String → Parsed (List String))
    → (String → Result Conn)
    → Option String
    → List String
    → String
    → Result Conn
unfolding dial_any dial_via
dial_with_fallback lookup_host dial from_env addrs peer_node_id = elim (dial_any dial addrs) [
  | ok c ↦ ok c
  | err direct_err ↦ elim from_env [
    | none ↦ err direct_err
    | some relay_addr ↦ elim (dial_via lookup_host dial relay_addr peer_node_id) [
      | ok c ↦ ok c
      | err relay_err ↦ err (
          network (
            "direct failed (" & display direct_err & "); relay failed (" & display relay_err & ")"))
    ]
  ]
]
