-- ===== src/Relay/Waiting.antt =====
-- Which target waits at the relay of crates/gpumesh-relay/src/main.rs, by the commands so far.
use gpu_share.Protocol.{Message, error}
use gpu_share.Base.Map.{get-remove, get-remove_self, remove, get-insert, get}
use gpu_share.Network.{send, recv, recv, Conn}
use gpu_share.Relay.{
  relay_register, relay_request, Outcome, parse_command, not_command, bridged, Registrations,
  on_command, handle_connection, serve, Command,
}
use gpu_share.Base.{
  str_iff, Bool-cases, Option-cases, ◌∙◌, String, Option, none, some, List, [], ◌∷◌, inl, inr, ◌≡◌,
  refl, ap, sym, arith, if◌then◌else◌, ◌==◌, nat_eq, string_eq, ◌&◌,
}
use gpu_share.Common.{Result-cases, ok, err, Result}

-- What a connection opens with, and the abstract view of the table: the last target that registered
-- under the name and that no request has taken since.
abbrev pub want_of : Result (Option Message) → Command
want_of (err e) = not_command "unreadable"
want_of (ok none) = not_command "closed"
want_of (ok (some first)) = parse_command first

abbrev pub wants : Conn → Command
wants conn = want_of (recv conn).1

abbrev pub after_command : String → Command → Conn → Option Conn → Option Conn
after_command id (relay_register node_id) conn waiting =
    if node_id == id then some conn else waiting
after_command id (relay_request node_id) conn waiting = if node_id == id then none else waiting
after_command id (not_command why) conn waiting = waiting

abbrev pub latest : String → List Conn → Option Conn → Option Conn
latest id [] waiting = waiting
latest id (conn ∷ conns) waiting =
    latest id conns (after_command id (wants conn) (recv conn).0 waiting)

get-on_command :
    (id : String) (c : Command) (conn : Conn) (regs : Registrations)
    → get id (on_command c conn regs).0 ≡ after_command id c conn (get id regs)
unfolding on_command
get-on_command id (not_command why) conn regs = refl
get-on_command id (relay_register node_id) conn regs = get-insert node_id id conn regs
get-on_command id (relay_request node_id) conn regs = elim (Option-cases (get node_id regs)) [
  | inr (target, q) ↦ rw (q, on_command) (get-remove node_id id regs)
  | inl q ↦ elim (Result-cases (send (error ("relay target unavailable: " & node_id)) conn).1) [
    | inl (e, s) ↦ rw (q, s, on_command) (absent q)
    | inr (u, s) ↦ rw (q, s, on_command) (absent q)
  ]
]
  where
    absent : get node_id regs ≡ none → get id regs ≡ (if node_id == id then none else get id regs)
    absent q = elim (Bool-cases (node_id == id)) [
      | inl y ↦ rw y (ap (λ (k : String). get k regs) (sym ((str_iff node_id id).0 y)) ∙ q)
      | inr n ↦ rw n refl
    ]

get-handle_connection :
    (id : String) (conn : Conn) (regs : Registrations)
    → get id (handle_connection conn regs).0
      ≡ after_command id (wants conn) (recv conn).0 (get id regs)
unfolding handle_connection
get-handle_connection id conn regs = elim (Result-cases (recv conn).1) [
  | inl (e, q) ↦ rw (q, handle_connection) refl
  | inr (none, q) ↦ rw (q, handle_connection) refl
  | inr (some first, q) ↦
      rw (q, handle_connection) (get-on_command id (parse_command first) (recv conn).0 regs)
]

-- After any sequence of connections, the target that waits under a name is the last one that
-- registered under it and that no request has taken since.
pub get-serve :
    (id : String) (conns : List Conn) (regs : Registrations)
    → get id (serve conns regs) ≡ latest id conns (get id regs)
unfolding serve
get-serve id [] regs = refl
get-serve id (conn ∷ conns) regs =
    get-serve id conns (handle_connection conn regs).0
    ∙ ap (latest id conns) (get-handle_connection id conn regs)

on_command-bridged :
    (c : Command) (conn dialer target : Conn) (regs regs' : Registrations)
    → on_command c conn regs ≡ (regs', bridged dialer target)
    → (id : String) × (c ≡ relay_request id)
      × (get id regs ≡ some target)
      × (get id regs' ≡ none)
      × (dialer ≡ conn)
unfolding on_command
on_command-bridged (not_command why) conn dialer target regs regs' h =
    absurd (ground (arith, ap (λ (r : Registrations × Outcome). r.1) h))
on_command-bridged (relay_register node_id) conn dialer target regs regs' h =
    absurd (ground (arith, ap (λ (r : Registrations × Outcome). r.1) h))
on_command-bridged (relay_request node_id) conn dialer target regs regs' h =
    elim (Option-cases (get node_id regs)) [
      | inr (t, q) ↦
          let k = rw (q, on_command) at h in
          let e : remove node_id regs ≡ regs' = ap (λ (r : Registrations × Outcome). r.0) k in
          let same : (t ≡ target) × (dialer ≡ conn) =
            ground (arith, ap (λ (r : Registrations × Outcome). r.1) k) in
          (
            node_id,
            refl,
            q ∙ ap (λ (x : Conn). some x) same.0,
            ap (get node_id) (sym e) ∙ get-remove_self node_id regs,
            same.1,
          )
      | inl q ↦ elim (Result-cases (send (error ("relay target unavailable: " & node_id)) conn).1) [
        | inl (e, s) ↦
            absurd (
              ground
                (arith, ap (λ (r : Registrations × Outcome). r.1) (rw (q, s, on_command) at h)))
        | inr (u, s) ↦
            absurd (
              ground
                (arith, ap (λ (r : Registrations × Outcome). r.1) (rw (q, s, on_command) at h)))
      ]
    ]

-- A dialer that is bridged after a sequence of connections has asked for a name, gets the last
-- target that registered under it and that no request has taken since, and takes it off: no other
-- dialer gets it.
pub handle_connection-bridged :
    (conns : List Conn) (conn dialer target : Conn) (regs' : Registrations)
    → handle_connection conn (serve conns []) ≡ (regs', bridged dialer target)
    → (id : String) × (wants conn ≡ relay_request id)
      × (latest id conns none ≡ some target)
      × (get id regs' ≡ none)
      × (dialer ≡ (recv conn).0)
unfolding handle_connection get
handle_connection-bridged conns conn dialer target regs' h = elim (Result-cases (recv conn).1) [
  | inl (e, q) ↦
      absurd
        (ground (arith, ap (λ (r : Registrations × Outcome). r.1) (rw (q, handle_connection) at h)))
  | inr (none, q) ↦
      absurd
        (ground (arith, ap (λ (r : Registrations × Outcome). r.1) (rw (q, handle_connection) at h)))
  | inr (some first, q) ↦
      let (id, c, found, gone, same) =
        on_command-bridged (parse_command first) (recv conn).0 dialer target (serve conns []) regs'
          (rw (q, handle_connection) at h) in
      (id, ap want_of q ∙ c, sym (get-serve id conns []) ∙ found, gone, same)
]
