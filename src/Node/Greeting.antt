-- ===== src/Node/Greeting.antt =====
-- The greeting that a node makes and the check of an inbound one: `make_hello`, `peer_info_msg` and
-- `authorize_inbound` of crates/gpumesh-core/src/node.rs.
pub mod Met
mod Tests
use gpu_share.Base.Int.{pos}
use gpu_share.Security.Crypto.{public_key_hex, node_id_from_public_hex, verify_signature}
use gpu_share.Node.Trust.{detected}
use gpu_share.Security.Hello.Checks.{verify_hello_sound, in_window}
use gpu_share.Security.Hello.{sign_hello, verify_hello}
use gpu_share.Protocol.{ProtocolHello, PeerInfoMsg}
use gpu_share.Security.AllowList.{AllowList, is_gpu_remote_allowed, is_desktop_allowed, is_allowed}
use gpu_share.Cuda.Gpu.{GpuInfo}
use gpu_share.Node.{MeshNode, Env}
use gpu_share.Storage.Peers.{lookup, PeerRecord}
use mathlib.Core.Option
use gpu_share.Base.{
  ◌∙◌, str_iff, Bool-cases, unwrap_or, is_empty, String, Bool, true, false, Option, none, some, [],
  inl, inr, ◌≡◌, refl, ap, sym, arith, if◌then◌else◌, ◌==◌, nat_eq, string_eq, ◌&&◌, ◌||◌, not, ◌⊎◌,
}
use gpu_share.Common.{
  >>=-eq-ok, unknown, busy, idle, Result-cases, protocol_minor, protocol_major, is_ok,
  not_authorized, PeerStatus, bail_if, ok, ◌>>◌, Result,
}

abbrev pub is_sharing : MeshNode → Bool
is_sharing node = node.sharing || node.config.sharing_enabled

abbrev status_of : MeshNode → PeerStatus
status_of node = if is_sharing node then (if is_empty node.active then idle else busy) else unknown

-- The greeting before it is signed.
unfoldable pub bare_hello : Env → MeshNode → ProtocolHello
bare_hello env node = record {
  major = protocol_major;
  minor = protocol_minor;
  node_id = node.identity.node_id;
  node_name = node.config.node_name;
  public_key_hex = public_key_hex env.crypto node.identity;
  sharing = is_sharing node;
  gpu_model = Option.map (λ (g : GpuInfo). g.name) (detected env);
  vram_total_mb = Option.map (λ (g : GpuInfo). g.vram_total_mb) (detected env);
  vram_free_mb = Option.map (λ (g : GpuInfo). g.vram_free_mb) (detected env);
  status = status_of node;
  issued_at = pos 0;
  signature = "";
}

unfoldable pub make_hello : Env → MeshNode → ProtocolHello
unfolding bare_hello
make_hello env node =
    sign_hello env.crypto env.hello_bytes env.now node.identity (bare_hello env node)

-- `gpus.first().and_then(..)`.
abbrev pub gpu_field : {A : Type 0} → (GpuInfo → Option A) → Option GpuInfo → Option A
gpu_field f none = none
gpu_field f (some g) = f g

unfoldable pub peer_info_msg : Env → MeshNode → PeerInfoMsg
unfolding make_hello
peer_info_msg env node =
    let hello = make_hello env node in
    record {
      node_id = hello.node_id;
      node_name = hello.node_name;
      gpu_model = hello.gpu_model;
      vram_total_mb = hello.vram_total_mb;
      vram_free_mb = hello.vram_free_mb;
      utilization = gpu_field (λ g. g.utilization_gpu) (detected env);
      temperature_c = gpu_field (λ g. g.temperature_c) (detected env);
      status = hello.status;
      sharing = hello.sharing;
      addrs = unwrap_or node.endpoint [];
    }

-- Some grant stands.
unfoldable pub is_permitted : AllowList → String → Bool
unfolding is_allowed is_desktop_allowed is_gpu_remote_allowed
is_permitted l id = is_allowed l id || (is_desktop_allowed l id || is_gpu_remote_allowed l id)

-- A peer that the store finds, with a key, has that key.
unfoldable pub key_fits : Option PeerRecord → String → Result (Unit {0})
key_fits none key = ok tt
key_fits (some r) key =
    bail_if (not (r.public_key_hex == "") && not (r.public_key_hex == key))
      (not_authorized "public key does not match paired peer")

unfoldable pub authorize_inbound : Env → MeshNode → ProtocolHello → Result (Unit {0})
unfolding is_permitted key_fits
authorize_inbound env node hello = do
  verify_hello env.crypto env.hello_bytes env.now hello
  bail_if (not (is_permitted node.allowlist hello.node_id)) (not_authorized hello.node_id)
  key_fits (lookup hello.node_id node.peers) hello.public_key_hex

-- An inbound greeting that is let through is fresh, is signed by its own key over all its other
-- fields and names the node of that key; that node has a grant; and a peer with a key that the
-- store finds under the identifier has that same key.
pub authorize_inbound_sound :
    (env : Env) (node : MeshNode) (hello : ProtocolHello)
    → authorize_inbound env node hello ≡ ok tt
    → (in_window env.now hello.issued_at ≡ true)
      × (verify_signature env.crypto hello.public_key_hex
            (env.hello_bytes (record hello { signature = "" }))
            hello.signature
          ≡ ok tt)
      × (node_id_from_public_hex env.crypto hello.public_key_hex ≡ ok hello.node_id)
      × (is_permitted node.allowlist hello.node_id ≡ true)
      × ((r : PeerRecord)
          → lookup hello.node_id node.peers ≡ some r
          → (r.public_key_hex ≡ "") ⊎ (r.public_key_hex ≡ hello.public_key_hex))
unfolding authorize_inbound
authorize_inbound_sound env node hello h =
    let (u, e0, h0) = >>=-eq-ok (verify_hello env.crypto env.hello_bytes env.now hello) _ h in
    let (u1, e1, h1) =
      >>=-eq-ok (bail_if (not (is_permitted node.allowlist hello.node_id)) _) _ h0 in
    let (fresh, signed, named) = verify_hello_sound env.crypto env.hello_bytes env.now hello e0 in
    (
      fresh,
      signed,
      named,
      ground (arith, e1),
      λ r e. same_key r (ap (λ o. key_fits o hello.public_key_hex) (sym e) ∙ h1),
    )
  where
    same_key :
        (r : PeerRecord)
        → key_fits (some r) hello.public_key_hex ≡ ok tt
        → (r.public_key_hex ≡ "") ⊎ (r.public_key_hex ≡ hello.public_key_hex)
    same_key r k = elim (Bool-cases (r.public_key_hex == "")) [
      | inl y ↦ inl ((str_iff _ _).0 y)
      | inr n ↦ elim (Bool-cases (r.public_key_hex == hello.public_key_hex)) [
        | inl y ↦ inr ((str_iff _ _).0 y)
        | inr m ↦ absurd (ground (arith, rw (n, m, key_fits) at k))
      ]
    ]

-- A node that has no grant, or that is denied, is refused, whatever its greeting.
pub authorize_inbound-is_ok :
    (env : Env) (node : MeshNode) (hello : ProtocolHello)
    → is_permitted node.allowlist hello.node_id ≡ false
    → is_ok (authorize_inbound env node hello) ≡ false
unfolding authorize_inbound
authorize_inbound-is_ok env node hello h =
    elim (Result-cases (verify_hello env.crypto env.hello_bytes env.now hello)) [
      | inl (e, q) ↦ rw (q, authorize_inbound) refl
      | inr (u, q) ↦ rw (q, h, authorize_inbound) refl
    ]
