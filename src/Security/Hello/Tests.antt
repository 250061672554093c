-- ===== src/Security/Hello/Tests.antt =====
-- Greetings of a toy node.
use gpu_share.Base.{[], refl, ◌∷◌, none, replicate, false, ℕ, ◌≡◌, List}
use gpu_share.Security.Crypto.{
  sign_b64, node_id_from_public_hex, verify_signature, node_id_from_verifying, public_key_hex,
  from_seed,
}
use gpu_share.Base.Int.{leb_ℤ, ltb_ℤ, ◌+ℤ◌, ◌-ℤ◌, pos}
use gpu_share.Security.Crypto.Toy.{toy_crypto, alice}
use gpu_share.Security.Hello.{sign_hello, verify_hello, canonical_bytes}
use gpu_share.Security.Hello.Checks.{verify_hello-sign_hello, in_window}
use gpu_share.Common.{ok, is_ok, unknown}
use gpu_share.Protocol.{ProtocolHello}

abbrev greeting : ProtocolHello
greeting = record {
  major = 1;
  minor = 4;
  node_id = alice.node_id;
  node_name = "alice";
  public_key_hex = public_key_hex toy_crypto alice;
  sharing = false;
  gpu_model = none;
  vram_total_mb = none;
  vram_free_mb = none;
  status = unknown;
  issued_at = pos 0;
  signature = "";
}

abbrev to_vec : ProtocolHello → List ℕ
to_vec h = h.major ∷ h.minor ∷ []

abbrev signed : ProtocolHello
signed = sign_hello toy_crypto to_vec (pos 1000) alice greeting

verify_hello-sign_hello_example :
    is_ok (verify_hello toy_crypto to_vec (pos 1300) signed) ≡ in_window (pos 1300) (pos 1000)
verify_hello-sign_hello_example =
    verify_hello-sign_hello toy_crypto to_vec (1 ∷ replicate 31 0) greeting (pos 1000) (pos 1300)
      refl refl

fresh_signed : verify_hello toy_crypto to_vec (pos 1300) signed ≡ ok tt
unfolding verify_hello sign_hello canonical_bytes toy_crypto from_seed public_key_hex
    node_id_from_verifying verify_signature node_id_from_public_hex sign_b64 ◌-ℤ◌ ◌+ℤ◌ ltb_ℤ leb_ℤ
fresh_signed = refl
