-- ===== src/Cuda/Remote/Sessions.antt =====
-- The table of sessions under the handlers of crates/gpumesh-core/src/cuda_remote.rs.
use mathlib.Core.Path.{subst}
use gpu_share.Cuda.Backend.Runs.{exec-IsSession}
use gpu_share.Cuda.Backend.Exec.{exec}
use gpu_share.Base.Map
use gpu_share.Cuda.Backend.Invariant.{open_session-IsSession, max_ops, IsSession, later}
use gpu_share.Protocol.{gpu_remote_reject, CudaOpKind}
use gpu_share.Cuda.Backend.{open_session, BackendSession, F32}
use gpu_share.Security.AllowList.{is_gpu_remote_allowed}
use gpu_share.Cuda.Gpu.{GpuInfo}
use gpu_share.Base.{
  Bool, ◌∙◌, sym, inl, ◌==◌, if◌then◌else◌, ◌⊎◌, zero, inr, Bool-cases, Option-cases, ◌^◌, str_iff,
  ℕ, suc, String, true, none, some, List, [], ◌∷◌, ◌≡◌, refl, ap, arith, nat_eq, string_eq, ◌≤◌,
  ◌<◌, ◌||◌, length,
}
use gpu_share.Common.{share_limits, NodeConfig}
use gpu_share.Cuda.Remote.{
  handle_gpu_remote_close, handle_gpu_remote_open, CudaSessions, handle_cuda_op, first_util,
  cuda_remote_client_ver, cuda_remote_api, session_cap, collect_devices, Provider, open_refusal,
}

length-collect_devices : (gs : List GpuInfo) → length (collect_devices gs) ≡ length gs
unfolding collect_devices
length-collect_devices [] = refl
length-collect_devices (g ∷ gs) = ap suc (length-collect_devices gs)

session_cap_le : (cfg : NodeConfig) → session_cap cfg ≤ 2 ^ 31
unfolding session_cap
session_cap_le cfg = omega arith

-- What a provider has checked of an open that it does not reject.
pub record IsAdmitted (p : Provider) (peer_id api : String) (client_ver : ℕ) : Type 0 where
  pub enabled : (p.cuda_remote_sharing || p.config.cuda_remote_sharing) ≡ true
  pub known_api : api ≡ cuda_remote_api
  pub version : (1 ≤ client_ver) × (client_ver ≤ cuda_remote_client_ver)
  pub permitted : is_gpu_remote_allowed p.allowlist peer_id ≡ true
  pub some_gpu : 0 < length p.gpus
  pub not_busy :
      (most util : ℕ)
      → p.config.max_gpu_utilization ≡ some most
      → first_util p.gpus ≡ some util
      → util ≤ most

pub open_refusal-IsAdmitted :
    (p : Provider) (peer_id api : String) (v : ℕ)
    → open_refusal p peer_id api v ≡ none
    → IsAdmitted p peer_id api v
unfolding open_refusal share_limits
open_refusal-IsAdmitted p peer_id api v h = record {
  enabled = ground arith;
  known_api = ground (arith, str_iff api cuda_remote_api);
  version = ground arith;
  permitted = ground arith;
  some_gpu = ground arith;
  not_busy = λ most util a b. ground arith;
}

-- An open is either rejected, and then the table stays as it was, or the provider has checked all
-- of `IsAdmitted`; in that case the table has a new session under the identifier, over the detected
-- devices and with a cap of at most 2 GiB, and every other session is as it was.
pub handle_gpu_remote_open_lem :
    (p : Provider) (peer_id api : String) (v : ℕ) (id : String) (m : CudaSessions)
    → ((reason : String) × (handle_gpu_remote_open p peer_id api v id m
          ≡ (gpu_remote_reject reason ∷ [], m)))
      ⊎ (IsAdmitted p peer_id api v
          × (session_cap p.config ≤ 2 ^ 31)
          × ((j : String)
              → Map.get j (handle_gpu_remote_open p peer_id api v id m).1 ≡ (
                  if id == j
                  then some (open_session (session_cap p.config) (collect_devices p.gpus))
                  else Map.get j m)))
unfolding handle_gpu_remote_open
handle_gpu_remote_open_lem p peer_id api v id m =
    elim (Option-cases (open_refusal p peer_id api v)) [
      | inr (reason, bad) ↦ inl (reason, rw (bad, handle_gpu_remote_open) refl)
      | inl good ↦ inr (
        open_refusal-IsAdmitted p peer_id api v good,
        session_cap_le p.config,
        λ j.
            rw (good, handle_gpu_remote_open)
              (Map.get-insert id j (open_session (session_cap p.config) (collect_devices p.gpus))
                m),
      )
    ]

-- The tables that a connection can come to in `k` requests.
pub data Reached (fl : F32) : ℕ → CudaSessions → Type 0 where
  start : Reached fl 0 []
  opened :
      (k v : ℕ) (m : CudaSessions) (p : Provider) (peer_id api id : String)
      → Reached fl k m
      → Reached fl (suc k) (handle_gpu_remote_open p peer_id api v id m).1
  operated :
      (k now elapsed op_id : ℕ) (m : CudaSessions) (id : String) (op : CudaOpKind)
      → Reached fl k m
      → Reached fl (suc k) (handle_cuda_op fl now elapsed id op_id op m).1
  closed :
      (k : ℕ) (m : CudaSessions) (id : String)
      → Reached fl k m
      → Reached fl (suc k) (handle_gpu_remote_close m id)

-- Every session of the table is well accounted.
abbrev AllSessions : ℕ → CudaSessions → Type 0
AllSessions k m = (j : String) (s : BackendSession) → Map.get j m ≡ some s → IsSession k s

later_all : (k : ℕ) (m : CudaSessions) → AllSessions k m → AllSessions (suc k) m
later_all k m w j s h = later k s (w j s h)

insert-AllSessions :
    (k : ℕ) (m : CudaSessions) (id : String) (t : BackendSession)
    → AllSessions k m
    → IsSession k t
    → AllSessions k (Map.insert id t m)
insert-AllSessions k m id t w new j s h = elim (Bool-cases (id == j)) [
  | inl y ↦
      let same : some t ≡ some s =
        sym (Map.get-insert id j t m ∙ ap (λ (b : Bool). if b then some t else Map.get j m) y)
        ∙ h in
      subst (λ (x : BackendSession). IsSession k x) (some_inj t s same) new
  | inr y ↦
      w j s
        (sym (Map.get-insert id j t m ∙ ap (λ (b : Bool). if b then some t else Map.get j m) y) ∙ h)
]
  where
    some_inj : (a b : BackendSession) → some a ≡ some b → a ≡ b
    some_inj a b e = cc

later_from_open : (k : ℕ) (s : BackendSession) → IsSession 0 s → IsSession k s
later_from_open zero s w = w
later_from_open (suc k) s w = later k s (later_from_open k s w)

opened-AllSessions :
    (k v : ℕ) (m : CudaSessions) (p : Provider) (peer_id api id : String)
    → AllSessions k m
    → AllSessions k (handle_gpu_remote_open p peer_id api v id m).1
unfolding handle_gpu_remote_open
opened-AllSessions k v m p peer_id api id w = elim (Option-cases (open_refusal p peer_id api v)) [
  | inr (reason, bad) ↦ rw (bad, handle_gpu_remote_open) w
  | inl good ↦
      let admitted : IsAdmitted p peer_id api v = open_refusal-IsAdmitted p peer_id api v good in
      let some_device : 0 < length (collect_devices p.gpus) =
        omega (arith, length-collect_devices p.gpus, admitted.some_gpu) in
      let fresh : IsSession 0 (open_session (session_cap p.config) (collect_devices p.gpus)) =
        open_session-IsSession (session_cap p.config) (collect_devices p.gpus)
          (omega (arith, session_cap_le p.config)) some_device in
      rw (good, handle_gpu_remote_open) (insert-AllSessions k m id _ w (later_from_open k _ fresh))
]

closed-AllSessions :
    (k : ℕ) (m : CudaSessions) (id : String)
    → AllSessions k m
    → AllSessions k (handle_gpu_remote_close m id)
unfolding handle_gpu_remote_close
closed-AllSessions k m id w j s h = w j s (ground (arith, Map.get-remove id j m))

operated-AllSessions :
    (fl : F32) (k now elapsed op_id : ℕ) (m : CudaSessions) (id : String) (op : CudaOpKind)
    → k < max_ops
    → AllSessions k m
    → AllSessions (suc k) (handle_cuda_op fl now elapsed id op_id op m).1
unfolding handle_cuda_op
operated-AllSessions fl k now elapsed op_id m id op lt w = elim (Option-cases (Map.get id m)) [
  | inl unknown ↦ rw (unknown, handle_cuda_op) (later_all k m w)
  | inr (s, found) ↦
      rw (found, handle_cuda_op)
        (insert-AllSessions (suc k) m id (exec fl now op s).1 (later_all k m w)
          (exec-IsSession fl now k op s lt (w id s found)))
]

-- On a connection that has served at most 2 ^ 35 requests to open, use and close sessions, in any
-- order and from any state of the provider, each live session is well accounted: its used bytes
-- are those of its live buffers, and within its cap.
pub Reached-IsSession :
    (fl : F32) (k : ℕ) (m : CudaSessions) (j : String) (s : BackendSession)
    → Reached fl k m
    → k ≤ max_ops
    → Map.get j m ≡ some s
    → IsSession k s
unfolding Map.get
Reached-IsSession fl k m j s r le = all k m r le j s
  where
    all : (k : ℕ) (m : CudaSessions) → Reached fl k m → k ≤ max_ops → AllSessions k m
    all _ _ start le = λ j s h. ground arith
    all _ _ (opened k v m p peer_id api id r) le =
        opened-AllSessions (suc k) v m p peer_id api id (later_all k m (all k m r (omega arith)))
    all _ _ (operated k now elapsed op_id m id op r) le =
        operated-AllSessions fl k now elapsed op_id m id op (omega arith) (all k m r (omega arith))
    all _ _ (closed k m id r) le =
        closed-AllSessions (suc k) m id (later_all k m (all k m r (omega arith)))
