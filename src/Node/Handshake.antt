-- ===== src/Node/Handshake.antt =====
-- The two sides of the handshake in crates/gpumesh-core/src/handshake.rs.
pub mod Sides
use gpu_share.Network.{recv, send, Conn}
use gpu_share.Security.Hello.{verify_hello}
use gpu_share.Jobs.{strip_prefix}
use gpu_share.Protocol.{error, hello_ack, check_compat, hello, ProtocolHello, Message}
use gpu_share.Node.{and_then, Env}
use gpu_share.Base.{
  strip_text, codes, is_some, ℕ, zero, suc, String, Bool, true, false, Option, none, some, List, [],
  ◌∷◌, ◌++◌, inl, inr, ◌≡◌, ◌≢◌, refl, ap, sym, arith, if◌then◌else◌, ◌==◌, nat_eq, string_eq, ◌+◌,
  ◌-◌, ◌*◌, ◌≤◌, ◌<◌, min, max, ◌&&◌, ◌||◌, not, ◌&◌, ◌⊎◌, ◌↔◌, length,
}
use gpu_share.Common.{protocol, network, GpuMeshError, ok, err, ◌>>=◌, ◌>>◌, Result}

abbrev pub has_prefix : String → String → Bool
has_prefix prefix s = is_some (strip_text prefix s)

abbrev closed_early : GpuMeshError
closed_early = network "connection closed during handshake"

-- `check_compat` and `verify_hello` on what the other side says it is.
unfoldable pub checked : Env → ProtocolHello → Result ProtocolHello
checked env peer =
    check_compat peer >> (verify_hello env.crypto env.hello_bytes env.now peer >> ok peer)

unfoldable pub client_answer : Env → Option Message → Result ProtocolHello
client_answer env none = err closed_early
client_answer env (some (hello_ack ack)) = checked env ack
client_answer env (some (error message)) = err (network message)
client_answer env (some other) = err (protocol ("expected HelloAck, got " & env.debug other))

unfoldable pub perform_client_handshake : Env → ProtocolHello → Conn → Conn × Result ProtocolHello
perform_client_handshake env own conn =
    and_then (send (hello own) conn)
      λ c _. and_then (recv c) λ d answer. (d, client_answer env answer)

unfoldable pub server_answer : Env → Option Message → Result ProtocolHello
server_answer env none = err closed_early
server_answer env (some (hello peer)) = checked env peer
server_answer env (some (error message)) =
    if has_prefix "RELAY_REQUEST:" message
    then err (network "relay requests not handled by agent endpoint")
    else if has_prefix "RELAY_REGISTER:" message
    then err (network "relay register not handled by agent endpoint")
    else err (protocol ("expected Hello, got " & env.debug (error message)))
server_answer env (some other) = err (protocol ("expected Hello, got " & env.debug other))

unfoldable pub perform_server_handshake : Env → ProtocolHello → Conn → Conn × Result ProtocolHello
perform_server_handshake env own conn = and_then (recv conn) λ c first.
    and_then (c, server_answer env first)
      λ d peer. and_then (send (hello_ack own) d) λ e _. (e, ok peer)
