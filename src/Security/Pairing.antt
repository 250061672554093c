-- ===== src/Security/Pairing.antt =====
-- `PairingPayload` of crates/gpumesh-security/src/lib.rs: the code that is exchanged out of band.
pub mod Exchange
pub mod Toy
mod Tests
use gpu_share.Base.{
  string_eq, ◌||◌, ◌==◌, not, trim, ℕ, String, List, Option, Json, or_no_bytes, Parsed, bad, good,
}
use gpu_share.Base.Int.{◌+ℤ◌, ◌-ℤ◌, ltb_ℤ, leb_ℤ, ℤ, pos}
use gpu_share.Common.{bail_if, ◌>>=◌, ◌>>◌, Result, ok, err, identity, pairing_ttl_secs}
use gpu_share.Security.Crypto.{
  node_id_from_public_hex, or_identity, verify_signature, sign_b64, Crypto, NodeIdentity,
}

pub record PairingPayload : Type 0 where
  pub version : ℕ
  pub node_id : String
  pub node_name : String
  pub public_key_hex : String
  pub addrs : List String
  pub gpu_model : Option String
  pub vram_mb : Option ℕ
  pub issued_at : ℤ
  pub signature : String

module _ (c : Crypto) (json : Json PairingPayload) where
  unfoldable pub canonical_pairing_bytes : PairingPayload → List ℕ
  canonical_pairing_bytes p = or_no_bytes (json.to_vec (record p { signature = "" }))

  unfoldable pub sign_with : NodeIdentity → PairingPayload → PairingPayload
  sign_with id payload =
      let bare = record payload { signature = "" } in
      record bare { signature = sign_b64 c id (canonical_pairing_bytes bare) }

  unfoldable pub verify : ℤ → PairingPayload → Result (Unit {0})
  verify now p = do
    verify_signature c p.public_key_hex (canonical_pairing_bytes (record p { signature = "" }))
        p.signature
    expected ← node_id_from_public_hex c p.public_key_hex
    bail_if (not (expected == p.node_id)) (identity "pairing node_id mismatch")
    bail_if (leb_ℤ p.issued_at (pos 0) || ltb_ℤ pairing_ttl_secs (now -ℤ p.issued_at))
        (identity "pairing code expired (valid 3600s)")
    bail_if (ltb_ℤ (now +ℤ pos 60) p.issued_at) (identity "pairing code timestamp is in the future")
    ok tt

  unfoldable pub encode_code : PairingPayload → Result String
  encode_code p = do bytes ← or_identity "" (json.to_vec p); ok (c.b64_encode bytes)

  unfoldable pub decode_code : ℤ → String → Result PairingPayload
  decode_code now code = do
    bytes ← or_identity "invalid pairing code: " (c.b64_decode (trim code))
    payload ← or_identity "invalid pairing payload: " (json.from_slice bytes)
    verify now payload
    ok payload
