-- ===== src/Security/Hello.antt =====
-- `sign_hello` and `verify_hello` of crates/gpumesh-security/src/lib.rs.
mod Tests
pub mod Checks
use gpu_share.Base.{ℕ, String, Bool, List, ◌||◌, ◌==◌, string_eq, not}
use gpu_share.Base.Int.{ℤ, pos, ltb_ℤ, leb_ℤ, ◌+ℤ◌, ◌-ℤ◌}
use gpu_share.Common.{Result, ok, err, identity, ◌>>=◌, ◌>>◌, bail_if, hello_ttl_secs}
use gpu_share.Protocol.{ProtocolHello}
use gpu_share.Security.Crypto.{
  Crypto, NodeIdentity, sign_b64, verify_signature, node_id_from_public_hex,
}

-- `to_vec` is serde_json's, with the empty text for an error.
module _ (c : Crypto) (to_vec : ProtocolHello → List ℕ) where
  unfoldable pub canonical_bytes : ProtocolHello → List ℕ
  canonical_bytes hello = to_vec (record hello { signature = "" })

  -- `now` is the clock's reading, in seconds.
  unfoldable pub sign_hello : ℤ → NodeIdentity → ProtocolHello → ProtocolHello
  sign_hello now id hello =
      let stamped = record hello { issued_at = now; signature = "" } in
      record stamped { signature = sign_b64 c id (canonical_bytes stamped) }

  unfoldable pub verify_hello : ℤ → ProtocolHello → Result (Unit {0})
  verify_hello now hello = do
    bail_if (hello.signature == "") (identity "hello missing signature")
    bail_if (leb_ℤ hello.issued_at (pos 0) || ltb_ℤ hello_ttl_secs (now -ℤ hello.issued_at))
        (identity "hello expired or missing timestamp")
    bail_if (ltb_ℤ (now +ℤ pos 60) hello.issued_at) (identity "hello timestamp in the future")
    verify_signature c hello.public_key_hex (canonical_bytes hello) hello.signature
    expected ← node_id_from_public_hex c hello.public_key_hex
    bail_if (not (expected == hello.node_id)) (identity "hello node_id does not match public key")
    ok tt
