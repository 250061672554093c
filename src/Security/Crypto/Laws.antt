-- ===== src/Security/Crypto/Laws.antt =====
-- Identities and signatures, by the laws of the crates.
use gpu_share.Base.{
  not, String, inl, inr, Bool-cases, ap, str_iff, arith, false, ◌==◌, ℕ, List, ◌≡◌, nat_eq,
  string_eq, length, ==_refl,
}
use gpu_share.Common.{◌>>◌, err, bail_if, ◌>>=◌, GpuMeshError, Result, ok}
use gpu_share.Security.Crypto.{
  IdentityFile, Crypto, NodeIdentity, from_seed, load, to_file, public_key_hex, sign_b64,
  node_id_from_public_hex, node_id_from_verifying, verify_signature,
}

-- The check of the node id, and what follows it: what passes names the node of its key.
pub names_key :
    (r : Result String) (name : String) (e : GpuMeshError) (late : Result (Unit {0}))
    → (r >>= λ expected. bail_if (not (expected == name)) e >> late) ≡ ok tt
    → r ≡ ok name
names_key (err e') name e late h = cc
names_key (ok n) name e late h = ground (arith, str_iff n name)

module _ (c : Crypto) where
  -- What an identity signs verifies under the public key that it shows.
  pub verify_signature-sign_b64 :
      (id : NodeIdentity) (m : List ℕ)
      → verify_signature c (public_key_hex c id) m (sign_b64 c id m) ≡ ok tt
  unfolding verify_signature public_key_hex sign_b64
  verify_signature-sign_b64 id m = rw (c.hex_decode-encode (c.verifying_key id.seed)) (
      rw (c.length-verifying_key id.seed) (
        rw (c.key-verifying_key id.seed) (
          rw (c.b64_decode-encode (c.sign id.seed m))
            (rw (c.length-sign id.seed m) (rw (c.verify-sign id.seed m))))))

  -- The node id that others derive from the public key is the one that the identity has.
  pub node_id-public_key_hex :
      (seed : List ℕ)
      → node_id_from_public_hex c (public_key_hex c (from_seed c seed))
        ≡ ok (from_seed c seed).node_id
  unfolding node_id_from_public_hex public_key_hex from_seed
  node_id-public_key_hex seed =
      rw (c.hex_decode-encode (c.verifying_key seed))
        (rw (c.length-verifying_key seed) (rw (c.key-verifying_key seed)))

  -- An identity that was saved is loaded again.
  pub load-to_file :
      (seed : List ℕ)
      → length seed ≡ 32
      → load c (to_file c (from_seed c seed)) ≡ ok (from_seed c seed)
  unfolding load to_file from_seed
  load-to_file seed h =
      rw (c.hex_decode-encode seed)
        (rw h (rw (==_refl (node_id_from_verifying c (c.verifying_key seed)))))

  -- Whatever the file says, an identity that is loaded has a seed of 32 bytes, its node id is the
  -- one of that seed's key, and it is the node id that the file names.
  pub load_sound :
      (file : IdentityFile) (id : NodeIdentity)
      → load c file ≡ ok id
      → (length id.seed ≡ 32) × (id ≡ from_seed c id.seed) × (id.node_id ≡ file.node_id)
  unfolding load from_seed
  load_sound file id h =
      ground (arith, str_iff (node_id_from_verifying c (c.verifying_key id.seed)) file.node_id)

  -- An empty text is no signature.
  pub sign_b64_ne : (id : NodeIdentity) (m : List ℕ) → (sign_b64 c id m == "") ≡ false
  unfolding sign_b64
  sign_b64_ne id m = elim (Bool-cases (c.b64_encode (c.sign id.seed m) == "")) [
    | inr e ↦ e
    | inl e ↦ absurd (impossible ((str_iff (c.b64_encode (c.sign id.seed m)) "").0 e))
  ]
    where
      impossible : c.b64_encode (c.sign id.seed m) ≡ "" → ⊥
      impossible e = ground (
        arith,
        c.length-sign id.seed m,
        c.b64_decode-encode (c.sign id.seed m),
        c.b64_decode_empty,
        ap c.b64_decode e,
      )
