-- ===== src/Node/Greeting/Tests.antt =====
-- A toy node that pairs by the code of another one and then lets it through.
use gpu_share.Node.Greeting.Met.{authorize_inbound-pair_with_code, elsewhere}
use gpu_share.Security.Pairing.Exchange.{decode_code-encode_code, pairing_window}
use gpu_share.Security.Pairing.Toy.{json, payload, target, write-target}
use gpu_share.Security.Pairing.{sign_with, encode_code, decode_code, PairingPayload}
use gpu_share.Node.Trust.{pairing_payload, pair_with_code, record_of, pairing_code, change_list}
use gpu_share.Node.Toy.{at_rest, bob, env}
use gpu_share.Security.Hello.Checks.{in_window}
use gpu_share.Base.Int.{leb_ℤ, ltb_ℤ, ◌+ℤ◌, ◌-ℤ◌, pos}
use gpu_share.Storage.Peers.{PeerRecord}
use gpu_share.Base.{◌∙◌, replicate, true, [], ◌∷◌, ◌≡◌, refl, ap, nat_eq, string_eq}
use gpu_share.Common.{is_ok, default_config, ok, Result}
use gpu_share.Node.Greeting.{authorize_inbound, make_hello}
use gpu_share.Security.AllowList.{default}
use gpu_share.Security.Crypto.Toy.{toy_crypto, alice}
use gpu_share.Security.Crypto.{from_seed, sign_b64}
use gpu_share.Node.{save_peers, Env, save_allowlist, MeshNode}

-- A node that pairs by a code of alice.
abbrev guest : MeshNode
guest = record (at_rest alice default []) {
  config = record (default_config "host") { node_name = "alice" };
}

abbrev pairing_env : Env
pairing_env = record env { pairing_json = json }

signed-target : sign_with toy_crypto json alice payload ≡ target
unfolding sign_with toy_crypto sign_b64 from_seed
signed-target = refl

in_its_window : pairing_window pairing_env.now (pos 1000) ≡ true
unfolding ltb_ℤ leb_ℤ ◌-ℤ◌ ◌+ℤ◌
in_its_window = refl

coded : pairing_code (elsewhere pairing_env (pos 1000) (ok [])) [] guest ≡ ok "1."
unfolding pairing_code encode_code pairing_payload
coded = rw signed-target (rw write-target (unfold toy_crypto in refl))

decoded : decode_code toy_crypto json (pos 1300) "1." ≡ ok target
decoded =
    decode_code-encode_code toy_crypto json (1 ∷ replicate 31 0) payload (pos 1300) "1." refl refl
      in_its_window
      (unfold encode_code in rw signed-target (rw write-target (unfold toy_crypto in refl)))
    ∙ ap (λ (p : PairingPayload). ok p) signed-target

abbrev lonely : MeshNode
lonely = at_rest bob default []

abbrev rec : PeerRecord
rec = record_of (pos 1300) target

paired : (pair_with_code pairing_env "1." lonely).1 ≡ ok rec
unfolding pair_with_code save_peers change_list save_allowlist
paired = rw (decoded, pair_with_code) refl

authorize_inbound-pair_with_code_example :
    is_ok (
      authorize_inbound
        (record pairing_env { now = pos 1300 })
        (pair_with_code pairing_env "1." lonely).0
        (make_hello (elsewhere pairing_env (pos 1300) (ok [])) guest))
    ≡ in_window (pos 1300) (pos 1300)
authorize_inbound-pair_with_code_example =
    authorize_inbound-pair_with_code pairing_env (pos 1000) (pos 1300) (pos 1300) (ok []) (ok []) []
      lonely (pair_with_code pairing_env "1." lonely).0 guest (1 ∷ replicate 31 0) "1." rec refl
      in_its_window coded
      (ap (λ (r : Result PeerRecord). ((pair_with_code pairing_env "1." lonely).0, r)) paired)
