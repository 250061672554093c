-- ===== src/Relay/Proxied.antt =====
-- What `proxy_messages` of crates/gpumesh-relay/src/main.rs delivers, whatever side `select!` takes
-- in each round.
use mathlib.Core.Path.{subst}
use gpu_share.Network.Channel.{send-eq-ok, recv-eq-some, recv-eq-none}
use mathlib.Core.List.{append_assoc, append-nil}
use gpu_share.Network.{send, recv, Conn}
use gpu_share.Relay.{proxy_messages, Bridge, round, Proxying, forward}
use gpu_share.Protocol.{Message}
use gpu_share.Base.{
  ◌∙◌, Bool, true, false, none, some, List, [], ◌∷◌, ◌++◌, inl, inr, ◌≡◌, refl, ap, sym, arith,
  nat_eq, string_eq, ◌⊎◌,
}
use gpu_share.Common.{GpuMeshError, Result-cases, ok, Result}

abbrev pub received : List Message → List (Result Message)
received [] = []
received (m ∷ ms) = ok m ∷ received ms

-- What has gone from one connection to another: the messages that the one gave, in order.
pub record Delivered (source source' target target' : Conn) : Type 0 where
  pub messages : List Message
  pub taken : source.inbox ≡ received messages ++ source'.inbox
  pub given : target'.sent ≡ target.sent ++ messages

-- Whether the proxying has ended with an error.
abbrev pub is_broken : Proxying → Bool
is_broken Proxying.running = false
is_broken Proxying.closed = false
is_broken (Proxying.broken e) = true

received-append : (xs ys : List Message) → received (xs ++ ys) ≡ received xs ++ received ys
received-append [] ys = refl
received-append (x ∷ xs) ys = ap (λ (r : List (Result Message)). ok x ∷ r) (received-append xs ys)

nothing_sent : (a b : Conn) → Delivered a a b b
nothing_sent a b = record { messages = []; taken = refl; given = sym (append-nil b.sent) }

Delivered-trans :
    (a a' a'' b b' b'' : Conn)
    → Delivered a a' b b'
    → Delivered a' a'' b' b''
    → Delivered a a'' b b''
Delivered-trans a a' a'' b b' b'' d e = record {
  messages = d.messages ++ e.messages;
  taken =
      d.taken
      ∙ ap (λ (r : List (Result Message)). received d.messages ++ r) e.taken
      ∙ sym (append_assoc (received d.messages) (received e.messages) a''.inbox)
      ∙ ap (λ (r : List (Result Message)). r ++ a''.inbox)
          (sym (received-append d.messages e.messages));
  given =
      e.given
      ∙ ap (λ (r : List Message). r ++ e.messages) d.given
      ∙ append_assoc b.sent d.messages e.messages;
}

-- One message, or none at the end: the source's other fields and the target's inbox stay.
pub record Forwarded (source target : Conn) (r : Conn × Conn × Proxying) : Type 0 where
  there : Delivered source r.0 target r.1
  inbox_kept : r.1.inbox ≡ target.inbox
  sent_kept : r.0.sent ≡ source.sent

forward-Forwarded :
    (source target : Conn)
    → is_broken (forward source target).2 ≡ false
    → Forwarded source target (forward source target)
unfolding forward
forward-Forwarded source target h = elim (Result-cases (recv source).1) [
  | inl (e, q) ↦ absurd (ground (arith, rw (q, forward) at h))
  | inr (none, q) ↦
      let same : (recv source).0 ≡ source =
        recv-eq-none source (recv source).0 (ap (λ r. ((recv source).0, r)) q) in
      rw (q, forward)
        (record {
          there =
              subst (λ (s : Conn). Delivered source s target target) (sym same)
                (nothing_sent source target);
          inbox_kept = refl;
          sent_kept = ap (λ (c : Conn). c.sent) same;
        })
  | inr (some m, q) ↦ elim (Result-cases (send m target).1) [
    | inl (e, s) ↦ absurd (ground (arith, rw (q, s, forward) at h))
    | inr (u, s) ↦
        let (next, kept) =
          recv-eq-some source (recv source).0 m (ap (λ r. ((recv source).0, r)) q) in
        let after = send-eq-ok m target (send m target).0 u (ap (λ r. ((send m target).0, r)) s) in
        rw (q, s, forward)
          (record {
            there = record {
              messages = m ∷ [];
              taken = next;
              given = ap (λ (c : Conn). c.sent) after;
            };
            inbox_kept = ap (λ (c : Conn). c.inbox) after;
            sent_kept = kept;
          })
  ]
]

-- Both directions of a bridge at once.
pub record IsRelayed (left right : Conn) (b : Bridge) : Type 0 where
  pub rightwards : Delivered left b.left right b.right
  pub leftwards : Delivered right b.right left b.left

Delivered-kept : (a a' b b' : Conn) → a'.inbox ≡ a.inbox → b'.sent ≡ b.sent → Delivered a a' b b'
Delivered-kept a a' b b' i s = record {
  messages = [];
  taken = sym i;
  given = s ∙ sym (append-nil b.sent);
}

round-IsRelayed :
    (side : Bool) (left right : Conn)
    → is_broken (round side left right).state ≡ false
    → IsRelayed left right (round side left right)
unfolding round
round-IsRelayed true left right h =
    let f = forward-Forwarded left right h in
    record { rightwards = f.there; leftwards = Delivered-kept _ _ _ _ f.inbox_kept f.sent_kept }
round-IsRelayed false left right h =
    let f = forward-Forwarded right left h in
    record { rightwards = Delivered-kept _ _ _ _ f.inbox_kept f.sent_kept; leftwards = f.there }

IsRelayed-trans :
    (left right : Conn) (a b : Bridge)
    → IsRelayed left right a
    → IsRelayed a.left a.right b
    → IsRelayed left right b
IsRelayed-trans left right a b x y = record {
  rightwards = Delivered-trans left a.left b.left right a.right b.right x.rightwards y.rightwards;
  leftwards = Delivered-trans right a.right b.right left a.left b.left x.leftwards y.leftwards;
}

pub Proxying-cases :
    (s : Proxying)
    → (s ≡ Proxying.running)
      ⊎ ((s ≡ Proxying.closed) ⊎ ((e : GpuMeshError) × (s ≡ Proxying.broken e)))
Proxying-cases Proxying.running = inl refl
Proxying-cases Proxying.closed = inr (inl refl)
Proxying-cases (Proxying.broken e) = inr (inr (e, refl))

-- However the sides take turns, a bridge that has not failed has given each side the messages that
-- it took from the other, all of them, once and in their order.
pub proxy_messages-IsRelayed :
    (sides : List Bool) (left right : Conn)
    → is_broken (proxy_messages sides left right).state ≡ false
    → IsRelayed left right (proxy_messages sides left right)
unfolding proxy_messages
proxy_messages-IsRelayed [] left right h = record {
  rightwards = nothing_sent left right;
  leftwards = nothing_sent right left;
}
proxy_messages-IsRelayed (side ∷ sides) left right h =
    let b : Bridge = round side left right in
    elim (Proxying-cases b.state) [
      | inl q ↦
          let more = proxy_messages-IsRelayed sides b.left b.right (rw (q, proxy_messages) at h) in
          let first = round-IsRelayed side left right (ap is_broken q) in
          rw (q, proxy_messages) (IsRelayed-trans left right b _ first more)
      | inr (inl q) ↦
          let first = round-IsRelayed side left right (ap is_broken q) in
          rw (q, proxy_messages) first
      | inr (inr (e, q)) ↦ absurd (ground (arith, q, rw (q, proxy_messages) at h))
    ]
