-- ===== src/Node/Greeting/Met.antt =====
-- Nodes of crates/gpumesh-core/src/node.rs that pair and greet: the maker of a code and of a
-- greeting against the one that takes them.
use gpu_share.Node.Trust.Paired.{allow-is_permitted, lookup-upsert, pair_with_code-eq-ok}
use gpu_share.Protocol.{ProtocolHello}
use gpu_share.Security.Hello.Checks.{verify_hello-sign_hello, in_window}
use gpu_share.Security.Pairing.Exchange.{decode_code-encode_code, pairing_window}
use gpu_share.Storage.Peers.{lookup, PeerRecord}
use gpu_share.Security.Crypto.{NodeIdentity, from_seed, public_key_hex}
use gpu_share.Security.Pairing.{encode_code, decode_code, PairingPayload, sign_with}
use gpu_share.Cuda.Gpu.{GpuInfo}
use gpu_share.Base.Int.{ℤ}
use gpu_share.Security.Hello.{verify_hello, sign_hello}
use gpu_share.Node.Greeting.{key_fits, is_permitted, bare_hello, make_hello, authorize_inbound}
use gpu_share.Node.{MeshNode, Env}
use gpu_share.Node.Trust.{pair_with_code, record_of, pairing_payload, pairing_code}
use gpu_share.Base.{
  ◌∙◌, str_iff, ℕ, String, true, some, List, ◌≡◌, refl, ap, sym, arith, nat_eq, string_eq, not,
}
use gpu_share.Common.{ok_inj, not_authorized, bail_if, is_ok, ok, err, ◌>>◌, Result}

-- The surroundings of another node at another time: the same libraries, its own GPUs.
abbrev pub elsewhere : Env → ℤ → Result (List GpuInfo) → Env
elsewhere env t gpus = record env { now = t; gpus = gpus }

verify_hello-make_hello :
    (env : Env) (t : ℤ) (gpus : Result (List GpuInfo)) (guest : MeshNode) (seed : List ℕ)
    → guest.identity ≡ from_seed env.crypto seed
    → is_ok
        (verify_hello env.crypto env.hello_bytes env.now (make_hello (elsewhere env t gpus) guest))
      ≡ in_window env.now t
unfolding make_hello bare_hello
verify_hello-make_hello env t gpus guest seed own =
    ap
      (λ (id : NodeIdentity). is_ok (
        verify_hello env.crypto env.hello_bytes env.now
          (sign_hello env.crypto env.hello_bytes t id (bare_hello (elsewhere env t gpus) guest))))
      own
    ∙ verify_hello-sign_hello env.crypto env.hello_bytes seed
        (bare_hello (elsewhere env t gpus) guest) t env.now
        (ap (λ (id : NodeIdentity). id.node_id) own) (ap (public_key_hex env.crypto) own)

make_hello-node_id :
    (env : Env) (guest : MeshNode) → (make_hello env guest).node_id ≡ guest.identity.node_id
unfolding make_hello sign_hello bare_hello
make_hello-node_id env guest = refl

make_hello-public_key_hex :
    (env : Env) (guest : MeshNode)
    → (make_hello env guest).public_key_hex ≡ public_key_hex env.crypto guest.identity
unfolding make_hello sign_hello bare_hello
make_hello-public_key_hex env guest = refl

-- A host lets the greeting that a guest signed at `t` through exactly in the window of `t`, if the
-- guest has a grant and the key of its record, or no record with a key.
pub authorize_inbound-make_hello :
    (env : Env) (t : ℤ) (gpus : Result (List GpuInfo)) (host guest : MeshNode) (seed : List ℕ)
    → guest.identity ≡ from_seed env.crypto seed
    → is_permitted host.allowlist guest.identity.node_id ≡ true
    → key_fits (lookup guest.identity.node_id host.peers) (public_key_hex env.crypto guest.identity)
      ≡ ok tt
    → is_ok (authorize_inbound env host (make_hello (elsewhere env t gpus) guest))
      ≡ in_window env.now t
unfolding authorize_inbound
authorize_inbound-make_hello env t gpus host guest seed own grant fits =
    let greeting : ProtocolHello = make_hello (elsewhere env t gpus) guest in
    let id : greeting.node_id ≡ guest.identity.node_id =
      make_hello-node_id (elsewhere env t gpus) guest in
    let key : greeting.public_key_hex ≡ public_key_hex env.crypto guest.identity =
      make_hello-public_key_hex (elsewhere env t gpus) guest in
    let grant' : is_permitted host.allowlist greeting.node_id ≡ true =
      ap (is_permitted host.allowlist) id ∙ grant in
    let fits' : key_fits (lookup greeting.node_id host.peers) greeting.public_key_hex ≡ ok tt =
      ap (λ (i : String). key_fits (lookup i host.peers) greeting.public_key_hex) id
      ∙ ap (key_fits (lookup guest.identity.node_id host.peers)) key
      ∙ fits in
    steps (verify_hello env.crypto env.hello_bytes env.now greeting) greeting grant' fits'
    ∙ verify_hello-make_hello env t gpus guest seed own
  where
    steps :
        (v : Result (Unit {0})) (greeting : ProtocolHello)
        → is_permitted host.allowlist greeting.node_id ≡ true
        → key_fits (lookup greeting.node_id host.peers) greeting.public_key_hex ≡ ok tt
        → is_ok (
            v
            >> (bail_if
                  (not (is_permitted host.allowlist greeting.node_id))
                  (not_authorized greeting.node_id)
                >> key_fits (lookup greeting.node_id host.peers) greeting.public_key_hex))
          ≡ is_ok v
    steps (err e) greeting g f = refl
    steps (ok u) greeting g f = rw (g, f) refl

-- A host that pairs with the code that a guest made lets the guest's later greetings through,
-- each exactly in its window.
pub authorize_inbound-pair_with_code :
    (env : Env) (made t now : ℤ) (gpus gpus' : Result (List GpuInfo)) (addrs : List String)
    (host host' guest : MeshNode) (seed : List ℕ) (code : String) (rec : PeerRecord)
    → guest.identity ≡ from_seed env.crypto seed
    → pairing_window env.now made ≡ true
    → pairing_code (elsewhere env made gpus) addrs guest ≡ ok code
    → pair_with_code env code host ≡ (host', ok rec)
    → is_ok (
        authorize_inbound
          (record env { now = now })
          host'
          (make_hello (elsewhere env t gpus') guest))
      ≡ in_window now t
unfolding pairing_code pairing_payload record_of sign_with
authorize_inbound-pair_with_code env made t now gpus gpus' addrs host host' guest seed code rec own
      fresh coded paired =
    let payload : PairingPayload = pairing_payload (elsewhere env made gpus) addrs guest in
    let signed : PairingPayload =
      sign_with env.crypto env.pairing_json (from_seed env.crypto seed) payload in
    let back : decode_code env.crypto env.pairing_json env.now code ≡ ok signed =
      decode_code-encode_code env.crypto env.pairing_json seed payload env.now code
        (ap (λ (id : NodeIdentity). id.node_id) own) (ap (public_key_hex env.crypto) own) fresh
        (ap
            (λ (id : NodeIdentity).
              encode_code env.crypto env.pairing_json
                (sign_with env.crypto env.pairing_json id payload))
            (sym own)
          ∙ coded) in
    let (p, d, r, after) = pair_with_code-eq-ok env code host host' rec paired in
    let same : signed ≡ p = ok_inj (sym back ∙ d) in
    let is : rec ≡ record_of env.now signed = r ∙ ap (record_of env.now) (sym same) in
    let id : rec.node_id ≡ guest.identity.node_id = ap (λ (q : PeerRecord). q.node_id) is in
    let key : rec.public_key_hex ≡ public_key_hex env.crypto guest.identity =
      ap (λ (q : PeerRecord). q.public_key_hex) is in
    let found : lookup guest.identity.node_id host'.peers ≡ some rec =
      ap (λ (i : String). lookup i host'.peers) (sym id)
      ∙ ap (λ (n : MeshNode). lookup rec.node_id n.peers) after
      ∙ lookup-upsert rec host.peers in
    let grant : is_permitted host'.allowlist guest.identity.node_id ≡ true =
      ap (is_permitted host'.allowlist) (sym id)
      ∙ ap (λ (n : MeshNode). is_permitted n.allowlist rec.node_id) after
      ∙ allow-is_permitted host.allowlist rec.node_id in
    let fits : key_fits (lookup guest.identity.node_id host'.peers)
          (public_key_hex env.crypto guest.identity)
        ≡ ok tt =
      ap (λ o. key_fits o (public_key_hex env.crypto guest.identity)) found ∙ own_key rec _ key in
    authorize_inbound-make_hello (record env { now = now }) t gpus' host' guest seed own grant fits
  where
    own_key : (r : PeerRecord) (k : String) → r.public_key_hex ≡ k → key_fits (some r) k ≡ ok tt
    own_key r k e = unfold key_fits in ground (arith, e, str_iff r.public_key_hex k)
