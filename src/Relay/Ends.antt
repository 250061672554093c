-- ===== src/Relay/Ends.antt =====
-- When `proxy_messages` of crates/gpumesh-relay/src/main.rs ends.
use gpu_share.Protocol.{Message}
use gpu_share.Network.Channel.{send-eq-ok, recv-eq-some, recv-drained}
use gpu_share.Relay.Proxied.{Proxying-cases}
use gpu_share.Network.{send, recv, Conn}
use gpu_share.Relay.{Bridge, Proxying, forward, proxy_messages, round}
use gpu_share.Base.{
  ◌∙◌, ℕ, suc, Bool, true, false, none, some, List, [], ◌∷◌, inl, inr, ◌≡◌, ◌≢◌, ap, sym, arith,
  nat_eq, string_eq, ◌+◌, ◌<◌, ◌⊎◌, length,
}
use gpu_share.Common.{Result-cases, Result}

-- The messages that the two sides will still give.
abbrev pub left_over : Conn → Conn → ℕ
left_over left right = length left.inbox + length right.inbox

forward-running :
    (source target : Conn)
    → (forward source target).2 ≡ Proxying.running
    → suc (left_over (forward source target).0 (forward source target).1) ≡ left_over source target
unfolding forward
forward-running source target h = elim (Result-cases (recv source).1) [
  | inl (e, q) ↦ absurd (ground (arith, rw (q, forward) at h))
  | inr (none, q) ↦ absurd (ground (arith, rw (q, forward) at h))
  | inr (some m, q) ↦ elim (Result-cases (send m target).1) [
    | inl (e, s) ↦ absurd (ground (arith, rw (q, s, forward) at h))
    | inr (u, s) ↦
        let (next, kept) =
          recv-eq-some source (recv source).0 m (ap (λ r. ((recv source).0, r)) q) in
        let after = send-eq-ok m target (send m target).0 u (ap (λ r. ((send m target).0, r)) s) in
        let taken : length source.inbox ≡ suc (length (recv source).0.inbox) =
          ap (λ (l : List (Result Message)). length l) next in
        let same : length (send m target).0.inbox ≡ length target.inbox =
          ap (λ (c : Conn). length c.inbox) after in
        rw (q, s, forward) (omega (arith, taken, same))
  ]
]

round-running :
    (side : Bool) (left right : Conn)
    → (round side left right).state ≡ Proxying.running
    → suc (left_over (round side left right).left (round side left right).right)
      ≡ left_over left right
unfolding round
round-running true left right h = forward-running left right h
round-running false left right h = omega (arith, forward-running right left h)

forward-closed :
    (source target : Conn)
    → (forward source target).2 ≡ Proxying.closed
    → (forward source target).0.inbox ≡ []
unfolding forward
forward-closed source target h = elim (Result-cases (recv source).1) [
  | inl (e, q) ↦ absurd (ground (arith, rw (q, forward) at h))
  | inr (none, q) ↦
      rw (q, forward) (recv-drained source (recv source).0 (ap (λ r. ((recv source).0, r)) q))
  | inr (some m, q) ↦ elim (Result-cases (send m target).1) [
    | inl (e, s) ↦ absurd (ground (arith, rw (q, s, forward) at h))
    | inr (u, s) ↦ absurd (ground (arith, rw (q, s, forward) at h))
  ]
]

round-closed :
    (side : Bool) (left right : Conn)
    → (round side left right).state ≡ Proxying.closed
    → ((round side left right).left.inbox ≡ []) ⊎ ((round side left right).right.inbox ≡ [])
unfolding round
round-closed true left right h = inl (forward-closed left right h)
round-closed false left right h = inr (forward-closed right left h)

-- The proxying ends once it has had more rounds than the two sides give messages, and where it ends
-- without an error, one side has closed and nothing that it gave is left.
pub proxy_messages_ends :
    (sides : List Bool) (left right : Conn)
    → left_over left right < length sides
    → ((proxy_messages sides left right).state ≢ Proxying.running)
      × ((proxy_messages sides left right).state ≡ Proxying.closed
          → ((proxy_messages sides left right).left.inbox ≡ [])
            ⊎ ((proxy_messages sides left right).right.inbox ≡ []))
unfolding proxy_messages
proxy_messages_ends [] left right h = absurd (omega arith)
proxy_messages_ends (side ∷ sides) left right h =
    let b : Bridge = round side left right in
    elim (Proxying-cases b.state) [
      | inl q ↦
          let more =
            proxy_messages_ends sides b.left b.right
              (omega (arith, round-running side left right q)) in
          rw (q, proxy_messages) more
      | inr (inl q) ↦
          rw (q, proxy_messages)
            (λ e. ground (arith, sym q ∙ e), λ e. round-closed side left right q)
      | inr (inr (x, q)) ↦
          rw (q, proxy_messages)
            (λ e. ground (arith, sym q ∙ e), λ e. absurd (ground (arith, sym q ∙ e)))
    ]
