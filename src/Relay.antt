-- ===== src/Relay.antt =====
-- The relay of crates/gpumesh-relay/src/main.rs: the table of waiting targets, the command that a
-- connection opens with, and the proxying of messages. The table is locked for one change at a
-- time, so connections change it one after the other.
pub mod Waiting
pub mod Proxied
pub mod Ends
mod Tests
use gpu_share.Network.{send, close, recv, Conn}
use gpu_share.Protocol.{error, Message}
use mathlib.Core.Option
use gpu_share.Base.{
  strip_text, ℕ, zero, suc, String, Bool, true, false, Option, none, some, List, [], ◌∷◌, ◌++◌, inl,
  inr, ◌≡◌, ◌≢◌, refl, ap, sym, arith, if◌then◌else◌, ◌==◌, nat_eq, string_eq, ◌+◌, ◌-◌, ◌*◌, ◌≤◌,
  ◌<◌, min, max, ◌&&◌, ◌||◌, not, ◌&◌, ◌⊎◌, ◌↔◌, length,
}
use gpu_share.Common.{display, GpuMeshError, ok, err, ◌>>=◌, ◌>>◌, Result}
use gpu_share.Base.Map
use gpu_share.Base.Map.{remove, get, insert, Map}

-- `Registrations`.
abbrev pub Registrations : Type 0
Registrations = Map String Conn

-- How the handling of a connection goes on: a target waits, and one that it replaced is closed; a
-- dialer and a target are bridged; or the connection ends with an error.
pub data Outcome : Type 0 where
  registered : Option Conn → Outcome
  bridged : Conn → Conn → Outcome
  failed : String → Outcome

-- A command, as the first frame spells it.
pub data Command : Type 0 where
  relay_register : String → Command
  relay_request : String → Command
  not_command : String → Command

unfoldable pub parse_text : String → Command
parse_text message = elim (strip_text "RELAY_REGISTER:" message) [
  | some node_id ↦
      if node_id == ""
      then not_command "registration has an empty node id"
      else relay_register node_id
  | none ↦ elim (strip_text "RELAY_REQUEST:" message) [
    | some node_id ↦
        if node_id == "" then not_command "request has an empty node id" else relay_request node_id
    | none ↦ not_command "unknown relay command"
  ]
]

unfoldable pub parse_command : Message → Command
unfolding parse_text
parse_command (error message) = parse_text message
parse_command other = not_command "first frame was not a relay command"

abbrev unavailable : String → Message
unavailable node_id = error ("relay target unavailable: " & node_id)

unfoldable pub on_command : Command → Conn → Registrations → Registrations × Outcome
on_command (not_command why) conn regs = (regs, failed why)
on_command (relay_register node_id) conn regs =
    (insert node_id conn regs, registered (Option.map close (get node_id regs)))
on_command (relay_request node_id) conn regs = elim (get node_id regs) [
  | some target ↦ (remove node_id regs, bridged conn target)
  | none ↦ elim (send (unavailable node_id) conn).1 [
    | err e ↦ (regs, failed (display e))
    | ok _ ↦ (regs, failed ("relay target " & node_id & " is not registered"))
  ]
]

-- `handle_connection`, up to the proxying.
unfoldable pub handle_connection : Conn → Registrations → Registrations × Outcome
unfolding on_command
handle_connection conn regs = elim (recv conn).1 [
  | err e ↦ (regs, failed (display e))
  | ok none ↦ (regs, failed "connection closed before relay command")
  | ok (some first) ↦ on_command (parse_command first) (recv conn).0 regs
]

-- The connections that the relay has accepted, in the order in which they take the lock.
unfoldable pub serve : List Conn → Registrations → Registrations
unfolding handle_connection
serve [] regs = regs
serve (conn ∷ conns) regs = serve conns (handle_connection conn regs).0

-- How the proxying stands.
pub data Proxying : Type 0 where
  running : Proxying
  closed : Proxying
  broken : GpuMeshError → Proxying

pub record Bridge : Type 0 where
  pub left : Conn
  pub right : Conn
  pub state : Proxying

-- A message from one connection to the other: the two and how it went.
unfoldable pub forward : Conn → Conn → Conn × Conn × Proxying
forward source target = elim (recv source).1 [
  | err e ↦ ((recv source).0, target, broken e)
  | ok none ↦ ((recv source).0, target, closed)
  | ok (some m) ↦ elim (send m target).1 [
    | err e ↦ ((recv source).0, (send m target).0, broken e)
    | ok _ ↦ ((recv source).0, (send m target).0, running)
  ]
]

-- One round of the loop: `select!` takes the left side or the right.
unfoldable pub round : Bool → Conn → Conn → Bridge
unfolding forward
round true left right =
    let (l, r, s) = forward left right in record { left = l; right = r; state = s }
round false left right =
    let (r, l, s) = forward right left in record { left = l; right = r; state = s }

-- `proxy_messages`, by the sides that `select!` takes.
unfoldable pub proxy_messages : List Bool → Conn → Conn → Bridge
proxy_messages [] left right = record { left = left; right = right; state = running }
proxy_messages (side ∷ sides) left right =
    let b = round side left right in
    elim b.state [ running ↦ proxy_messages sides b.left b.right | closed ↦ b | broken e ↦ b ]
