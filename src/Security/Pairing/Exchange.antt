-- ===== src/Security/Pairing/Exchange.antt =====
-- Pairing codes of crates/gpumesh-security/src/lib.rs on their way from one node to another.
use gpu_share.Common.{identity, bail_if, ◌>>◌, Result, pairing_ttl_secs, ok}
use gpu_share.Base.{
  trim_lem, string_eq, inr, ==_refl, inl, arith, Parsed-cases, true, ◌||◌, ◌&&◌, not, ℕ, List, ◌≡◌,
  String, Bool, Json,
}
use gpu_share.Security.Crypto.{
  node_id_from_public_hex, public_key_hex, verify_signature, from_seed, Crypto,
}
use gpu_share.Base.Int.{◌+ℤ◌, ◌-ℤ◌, pos, ltb_ℤ, leb_ℤ, ℤ}
use gpu_share.Security.Pairing.{
  PairingPayload, canonical_pairing_bytes, sign_with, verify, encode_code, decode_code,
}
use gpu_share.Security.Crypto.Laws.{names_key, verify_signature-sign_b64, node_id-public_key_hex}

abbrev pub pairing_window : ℤ → ℤ → Bool
pairing_window now t = ltb_ℤ (pos 0) t && (leb_ℤ (now -ℤ t) (pos 3600) && leb_ℤ t (now +ℤ pos 60))

window_tests :
    (now t : ℤ)
    → pairing_window now t ≡ (
        not (leb_ℤ t (pos 0) || ltb_ℤ pairing_ttl_secs (now -ℤ t)) && not (ltb_ℤ (now +ℤ pos 60) t))
unfolding leb_ℤ ltb_ℤ
window_tests now t = ground arith

module _ (c : Crypto) (json : Json PairingPayload) where
  verify-sign_with :
      (seed : List ℕ) (p : PairingPayload) (now : ℤ)
      → p.node_id ≡ (from_seed c seed).node_id
      → p.public_key_hex ≡ public_key_hex c (from_seed c seed)
      → pairing_window now p.issued_at ≡ true
      → verify c json now (sign_with c json (from_seed c seed) p) ≡ ok tt
  unfolding verify sign_with
  verify-sign_with seed p now named keyed fresh =
      let id = from_seed c seed in
      ground (
        arith,
        verify_signature-sign_b64 c id
            (canonical_pairing_bytes c json (record p { signature = "" })),
        node_id-public_key_hex c seed,
        window_tests now p.issued_at,
        ==_refl id.node_id,
      )

  -- A node signs a payload that carries its own identifier and key, and encodes it: the code
  -- decodes to that signed payload at any time of the window of its time stamp.
  pub decode_code-encode_code :
      (seed : List ℕ) (p : PairingPayload) (now : ℤ) (code : String)
      → p.node_id ≡ (from_seed c seed).node_id
      → p.public_key_hex ≡ public_key_hex c (from_seed c seed)
      → pairing_window now p.issued_at ≡ true
      → encode_code c json (sign_with c json (from_seed c seed) p) ≡ ok code
      → decode_code c json now code ≡ ok (sign_with c json (from_seed c seed) p)
  unfolding encode_code decode_code
  decode_code-encode_code seed p now code named keyed fresh h =
      let signed = sign_with c json (from_seed c seed) p in
      elim (Parsed-cases (json.to_vec signed)) [
        | inl b ↦ absurd (ground arith)
        | inr g ↦
            let spelled : code ≡ c.b64_encode g.0 = ground arith in
            ground (
              arith,
              trim_lem (c.b64_encode g.0) (c.b64_no_whitespace g.0),
              c.b64_decode-encode g.0,
              json.from_slice-to_vec signed g.0 g.1,
              verify-sign_with seed p now named keyed fresh,
            )
      ]

  decode_code_verified :
      (now : ℤ) (code : String) (p : PairingPayload)
      → decode_code c json now code ≡ ok p
      → verify c json now p ≡ ok tt
  unfolding decode_code
  decode_code_verified now code p h = ground arith

  -- A code that is taken shows a payload that is in its window, is signed by its own key in all
  -- its other fields, and names the node of that key.
  pub decode_code_sound :
      (now : ℤ) (code : String) (p : PairingPayload)
      → decode_code c json now code ≡ ok p
      → (pairing_window now p.issued_at ≡ true)
        × (verify_signature c p.public_key_hex (canonical_pairing_bytes c json p) p.signature
            ≡ ok tt)
        × (node_id_from_public_hex c p.public_key_hex ≡ ok p.node_id)
  unfolding verify canonical_pairing_bytes
  decode_code_sound now code p h =
      let v : verify c json now p ≡ ok tt = decode_code_verified now code p h in
      (
        ground (arith, window_tests now p.issued_at),
        ground arith,
        names_key (node_id_from_public_hex c p.public_key_hex) p.node_id
            (identity "pairing node_id mismatch") late (ground arith),
      )
    where
      late : Result (Unit {0})
      late = do
        bail_if (leb_ℤ p.issued_at (pos 0) || ltb_ℤ pairing_ttl_secs (now -ℤ p.issued_at))
            (identity "pairing code expired (valid 3600s)")
        bail_if (ltb_ℤ (now +ℤ pos 60) p.issued_at)
            (identity "pairing code timestamp is in the future")
        ok tt
