-- ===== src/Security/Hello/Checks.antt =====
-- The checks that `verify_hello` of crates/gpumesh-security/src/lib.rs makes of a greeting.
use gpu_share.Protocol.{ProtocolHello}
use gpu_share.Base.Int.{◌+ℤ◌, ◌-ℤ◌, pos, ltb_ℤ, leb_ℤ, ℤ}
use gpu_share.Common.{identity, ok, hello_ttl_secs, is_ok}
use gpu_share.Base.{string_eq, ==_refl, ◌||◌, ℕ, not, Bool, List, arith, true, ◌&&◌, ◌≡◌}
use gpu_share.Security.Hello.{canonical_bytes, sign_hello, verify_hello}
use gpu_share.Security.Crypto.Laws.{
  names_key, verify_signature-sign_b64, node_id-public_key_hex, sign_b64_ne,
}
use gpu_share.Security.Crypto.{
  node_id_from_public_hex, verify_signature, public_key_hex, Crypto, from_seed,
}

-- The window in which a greeting that was signed at `t` is taken at `now`: at most five minutes
-- after, and at most one minute before.
abbrev pub in_window : ℤ → ℤ → Bool
in_window now t = ltb_ℤ (pos 0) t && (leb_ℤ (now -ℤ t) (pos 300) && leb_ℤ t (now +ℤ pos 60))

fresh_tests :
    (now t : ℤ)
    → in_window now t
      ≡ (not (leb_ℤ t (pos 0) || ltb_ℤ hello_ttl_secs (now -ℤ t)) && not (ltb_ℤ (now +ℤ pos 60) t))
unfolding leb_ℤ ltb_ℤ
fresh_tests now t = ground arith

module _ (c : Crypto) (to_vec : ProtocolHello → List ℕ) where
  -- A greeting that is accepted is fresh, its signature fits its own public key over all its other
  -- fields, and its node id is the one that belongs to that key.
  pub verify_hello_sound :
      (now : ℤ) (hello : ProtocolHello)
      → verify_hello c to_vec now hello ≡ ok tt
      → (in_window now hello.issued_at ≡ true)
        × (verify_signature c hello.public_key_hex
              (to_vec (record hello { signature = "" }))
              hello.signature
            ≡ ok tt)
        × (node_id_from_public_hex c hello.public_key_hex ≡ ok hello.node_id)
  unfolding verify_hello canonical_bytes
  verify_hello_sound now hello h = (
    ground (arith, fresh_tests now hello.issued_at),
    ground arith,
    names_key (node_id_from_public_hex c hello.public_key_hex) hello.node_id
        (identity "hello node_id does not match public key") (ok tt) (ground arith),
  )

  -- What a node signs in its own name at `t` is accepted at `now` exactly if `now` lies in the
  -- window of `t`.
  pub verify_hello-sign_hello :
      (seed : List ℕ) (hello : ProtocolHello) (t now : ℤ)
      → hello.node_id ≡ (from_seed c seed).node_id
      → hello.public_key_hex ≡ public_key_hex c (from_seed c seed)
      → is_ok (verify_hello c to_vec now (sign_hello c to_vec t (from_seed c seed) hello))
        ≡ in_window now t
  unfolding verify_hello sign_hello canonical_bytes
  verify_hello-sign_hello seed hello t now named keyed =
      let id = from_seed c seed in
      let stamped = record hello { issued_at = t; signature = "" } in
      ground (
        arith,
        sign_b64_ne c id (to_vec stamped),
        verify_signature-sign_b64 c id (to_vec stamped),
        node_id-public_key_hex c seed,
        fresh_tests now t,
        ==_refl id.node_id,
      )
