-- ===== src/Network/Channel.antt =====
-- What one message does to a connection of crates/gpumesh-network/src/peer_conn.rs.
use gpu_share.Network.{Conn, recv, send}
use gpu_share.Protocol.{Message}
use gpu_share.Base.{
  ◌∙◌, Option, none, some, List, [], ◌∷◌, ◌++◌, inl, inr, ◌≡◌, refl, ap, sym, arith, nat_eq,
  string_eq,
}
use gpu_share.Common.{GpuMeshError, Result-cases, ok, err, Result}

-- The first message that is still to come.
abbrev pub IsNext : Message → List (Result Message) → List (Result Message) → Type 0
IsNext m before after = before ≡ ok m ∷ after

pub recv-eq-some :
    (conn conn' : Conn) (m : Message)
    → recv conn ≡ (conn', ok (some m))
    → IsNext m conn.inbox conn'.inbox × (conn'.sent ≡ conn.sent)
unfolding recv
recv-eq-some conn conn' m h = go conn.inbox refl
  where
    split : {A : Type 0} → Conn × Result A → Result A
    split r = r.1

    go :
        (inbox : List (Result Message))
        → conn.inbox ≡ inbox
        → IsNext m conn.inbox conn'.inbox × (conn'.sent ≡ conn.sent)
    go [] e = absurd (ground (arith, ap split (rw (e, recv) at h)))
    go (err x ∷ rest) e = absurd (ground (arith, ap split (rw (e, recv) at h)))
    go (ok n ∷ rest) e = ground (
      arith,
      e,
      ap split (rw (e, recv) at h),
      ap (λ (r : Conn × Result (Option Message)). r.0.inbox) (rw (e, recv) at h),
      ap (λ (r : Conn × Result (Option Message)). r.0.sent) (rw (e, recv) at h),
    )

pub send-eq-ok :
    (m : Message) (conn conn' : Conn) (u : Unit {0})
    → send m conn ≡ (conn', ok u)
    → conn' ≡ record conn { sent = conn.sent ++ m ∷ [] }
unfolding send
send-eq-ok m conn conn' u h = elim (Result-cases conn.link) [
  | inl (e, q) ↦ absurd (ground (arith, ap (λ (r : Conn × Result (Unit {0})). r.1) h))
  | inr (v, q) ↦ ground (arith, ap (λ (r : Conn × Result (Unit {0})). r.0) h)
]

pub send-eq-err :
    (m : Message) (conn conn' : Conn) (e : GpuMeshError)
    → send m conn ≡ (conn', err e)
    → conn'.sent ≡ conn.sent
unfolding send
send-eq-err m conn conn' e h = elim (Result-cases conn.link) [
  | inl (x, q) ↦ ground (arith, ap (λ (r : Conn × Result (Unit {0})). r.0.sent) h)
  | inr (v, q) ↦ absurd (ground (arith, ap (λ (r : Conn × Result (Unit {0})). r.1) h))
]

pub recv-sent :
    (conn conn' : Conn) (r : Result (Option Message))
    → recv conn ≡ (conn', r)
    → conn'.sent ≡ conn.sent
unfolding recv
recv-sent conn conn' r h = go conn.inbox refl
  where
    left : Conn × Result (Option Message) → List Message
    left p = p.0.sent

    go : (inbox : List (Result Message)) → conn.inbox ≡ inbox → conn'.sent ≡ conn.sent
    go [] e = sym (ap left (rw (e, recv) at h))
    go (err x ∷ rest) e = sym (ap left (rw (e, recv) at h))
    go (ok n ∷ rest) e = sym (ap left (rw (e, recv) at h))

pub recv-eq-none : (conn conn' : Conn) → recv conn ≡ (conn', ok none) → conn' ≡ conn
unfolding recv
recv-eq-none conn conn' h = go conn.inbox refl
  where
    answer : Conn × Result (Option Message) → Result (Option Message)
    answer p = p.1

    go : (inbox : List (Result Message)) → conn.inbox ≡ inbox → conn' ≡ conn
    go [] e = sym (ap (λ (p : Conn × Result (Option Message)). p.0) (rw (e, recv) at h))
    go (err x ∷ rest) e = absurd (ground (arith, ap answer (rw (e, recv) at h)))
    go (ok n ∷ rest) e = absurd (ground (arith, ap answer (rw (e, recv) at h)))

pub recv-drained : (conn conn' : Conn) → recv conn ≡ (conn', ok none) → conn'.inbox ≡ []
unfolding recv
recv-drained conn conn' h = go conn.inbox refl
  where
    answer : Conn × Result (Option Message) → Result (Option Message)
    answer p = p.1

    go : (inbox : List (Result Message)) → conn.inbox ≡ inbox → conn'.inbox ≡ []
    go [] e = ap (λ (c : Conn). c.inbox) (recv-eq-none conn conn' h) ∙ e
    go (err x ∷ rest) e = absurd (ground (arith, ap answer (rw (e, recv) at h)))
    go (ok n ∷ rest) e = absurd (ground (arith, ap answer (rw (e, recv) at h)))

-- Messages as `recv` gives them.
abbrev pub arrived : List Message → List (Result (Option Message))
arrived [] = []
arrived (m ∷ ms) = ok (some m) ∷ arrived ms
