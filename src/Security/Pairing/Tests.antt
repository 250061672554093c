-- ===== src/Security/Pairing/Tests.antt =====
-- A pairing code of the toy node.
use gpu_share.Common.{ok}
use gpu_share.Base.Int.{◌+ℤ◌, ◌-ℤ◌, leb_ℤ, ltb_ℤ, pos}
use gpu_share.Security.Crypto.{from_seed, sign_b64}
use gpu_share.Base.{string_eq, refl, ◌∷◌, ◌≡◌, replicate}
use gpu_share.Security.Pairing.{sign_with, encode_code, decode_code}
use gpu_share.Security.Pairing.Exchange.{decode_code-encode_code}
use gpu_share.Security.Pairing.Toy.{payload, target, json, write-target}
use gpu_share.Security.Crypto.Toy.{toy_crypto, alice}

signed-target : sign_with toy_crypto json alice payload ≡ target
unfolding sign_with toy_crypto sign_b64 from_seed
signed-target = refl

encoded : encode_code toy_crypto json (sign_with toy_crypto json alice payload) ≡ ok "1."
unfolding encode_code
encoded = rw signed-target (rw write-target (unfold toy_crypto in refl))

decode_code-encode_code_example :
    decode_code toy_crypto json (pos 4600) "1." ≡ ok (sign_with toy_crypto json alice payload)
decode_code-encode_code_example =
    decode_code-encode_code toy_crypto json (1 ∷ replicate 31 0) payload (pos 4600) "1." refl refl
      (unfold ltb_ℤ leb_ℤ ◌-ℤ◌ ◌+ℤ◌ in refl) encoded
