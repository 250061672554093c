-- ===== src/Security/Listing/Checks.antt =====
-- The checks that `verify_public_listing` of crates/gpumesh-security/src/lib.rs makes.
use gpu_share.Common.{identity, announce_ttl_secs, ok}
use gpu_share.Base.{arith, ◌&&◌, true, ◌||◌, not, ◌≡◌, Bool}
use gpu_share.Security.Crypto.{node_id_from_public_hex, verify_signature, Crypto}
use gpu_share.Base.Int.{◌+ℤ◌, ◌-ℤ◌, pos, ltb_ℤ, leb_ℤ, ℤ}
use gpu_share.Security.Listing.{PublicListingPayload, verify_public_listing}
use gpu_share.Security.Crypto.Laws.{names_key}

abbrev pub announce_window : ℤ → ℤ → Bool
announce_window now t = ltb_ℤ (pos 0) t && (leb_ℤ (now -ℤ t) (pos 180) && leb_ℤ t (now +ℤ pos 60))

window_tests :
    (now t : ℤ)
    → announce_window now t ≡ (
        not (leb_ℤ t (pos 0) || ltb_ℤ announce_ttl_secs (now -ℤ t))
        && not (ltb_ℤ (now +ℤ pos 60) t))
unfolding leb_ℤ ltb_ℤ
window_tests now t = ground arith

module _ (c : Crypto) {L : Type 0} (t : PublicListingPayload L) where
  -- A public listing that is accepted is at most three minutes old and at most one minute ahead,
  -- is signed by its own key, and names the node of that key.
  pub verify_public_listing_sound :
      (now : ℤ) (l : L)
      → verify_public_listing c t now l ≡ ok tt
      → (announce_window now (t.issued_at l) ≡ true)
        × (verify_signature c (t.public_key_hex l) (t.canonical_bytes l) (t.signature l) ≡ ok tt)
        × (node_id_from_public_hex c (t.public_key_hex l) ≡ ok (t.node_id l))
  unfolding verify_public_listing
  verify_public_listing_sound now l h = (
    ground (arith, window_tests now (t.issued_at l)),
    ground arith,
    names_key (node_id_from_public_hex c (t.public_key_hex l)) (t.node_id l)
        (identity "public listing node_id does not match public key") (ok tt) (ground arith),
  )
