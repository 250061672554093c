-- ===== src/Security/Listing/Tests.antt =====
-- A public listing of the toy node.
use gpu_share.Security.Crypto.Toy.{alice, toy_crypto}
use gpu_share.Security.Crypto.{
  public_key_hex, from_seed, node_id_from_verifying, node_id_from_public_hex, verify_signature,
}
use gpu_share.Security.Listing.Checks.{verify_public_listing_sound, announce_window}
use gpu_share.Base.{replicate, true, none, [], ◌∷◌, ◌≡◌, refl, nat_eq, string_eq}
use gpu_share.Common.{ok}
use gpu_share.Base.Int.{◌+ℤ◌, ◌-ℤ◌, leb_ℤ, ltb_ℤ, pos}
use gpu_share.Security.Listing.{
  verify_public_listing, listing_payload, PublicListing, PublicListingPayload,
}

abbrev bare : PublicListing
bare = record {
  node_id = alice.node_id;
  node_name = "alice";
  public_key_hex = public_key_hex toy_crypto alice;
  addrs = [];
  gpu_model = none;
  vram_mb = none;
  vram_free_mb = none;
  cuda_version = none;
  availability = "idle";
  perf_score = none;
  latency_ms = none;
  region = none;
  uptime_secs = none;
  sharing = true;
  is_public = true;
  utilization = none;
  issued_at = pos 1000;
  signature = "";
}

abbrev payload : PublicListingPayload PublicListing
payload = listing_payload (λ l. 7 ∷ [])

abbrev signed : PublicListing
signed = record bare { signature = toy_crypto.b64_encode (replicate 64 1) }

signed_works : verify_public_listing toy_crypto payload (pos 1100) signed ≡ ok tt
unfolding verify_public_listing verify_signature node_id_from_public_hex node_id_from_verifying
    from_seed public_key_hex toy_crypto ltb_ℤ leb_ℤ ◌-ℤ◌ ◌+ℤ◌
signed_works = refl

verify_public_listing_sound_example :
    (announce_window (pos 1100) signed.issued_at ≡ true)
    × (verify_signature toy_crypto signed.public_key_hex (7 ∷ []) signed.signature ≡ ok tt)
    × (node_id_from_public_hex toy_crypto signed.public_key_hex ≡ ok signed.node_id)
verify_public_listing_sound_example =
    verify_public_listing_sound toy_crypto payload (pos 1100) signed signed_works
