-- ===== src/Directory/Tests.antt =====
-- The toy node announces itself and withdraws.
use gpu_share.Jobs.{strip_prefix}
use gpu_share.Directory.Search.{
  is_better, sort_listings, contains_text, field_matches, entry_matches, matching, public_search,
  SearchQuery,
}
use gpu_share.Security.Crypto.{
  from_seed, node_id_from_verifying, node_id_from_public_hex, verify_signature, public_key_hex,
}
use gpu_share.Security.Crypto.Toy.{alice, toy_crypto}
use gpu_share.Base.{
  ascii_lower, eq_ignore_ascii_case, replicate, ℕ, true, Option, none, some, List, [], ◌∷◌, ◌≡◌,
  refl, nat_eq, string_eq,
}
use gpu_share.Base.Map
use gpu_share.Base.Map.{Map}
use gpu_share.Base.Int.{pos, ltb_ℤ, leb_ℤ, ◌+ℤ◌, ◌-ℤ◌}
use gpu_share.Security.Listing.{verify_public_listing, PublicListing, PublicUnannounce}
use gpu_share.Directory.{
  no_content, is_timely, public_unannounce, authorized, public_announce, PublicEntry, Directory,
  StatusCode,
}
use gpu_share.Directory.Owners.{
  IsOwned, IsWithdrawal, Reached, start, announced, Reached-IsOwned, public_unannounce-IsWithdrawal,
}

abbrev signed_listing : PublicListing
signed_listing = record {
  node_id = alice.node_id;
  node_name = "alice";
  public_key_hex = public_key_hex toy_crypto alice;
  addrs = [];
  gpu_model = none;
  vram_mb = none;
  vram_free_mb = none;
  cuda_version = none;
  availability = "idle";
  perf_score = none;
  latency_ms = none;
  region = none;
  uptime_secs = none;
  sharing = true;
  is_public = true;
  utilization = none;
  issued_at = pos 1000;
  signature = toy_crypto.b64_encode (replicate 64 1);
}

abbrev listing_bytes : PublicListing → List ℕ
listing_bytes l = 7 ∷ []

abbrev body_bytes : PublicUnannounce → List ℕ
body_bytes u = 8 ∷ []

abbrev always_written : Directory → Option StatusCode
always_written d = none

abbrev entry : PublicEntry
entry = record { listing = signed_listing; updated_at = pos 1100 }

abbrev one_listed : Directory
one_listed =
    (public_announce toy_crypto listing_bytes body_bytes always_written none (pos 1100) none
      signed_listing []).1

listed : Map.get alice.node_id one_listed ≡ some entry
unfolding public_announce authorized verify_public_listing verify_signature node_id_from_public_hex
    node_id_from_verifying from_seed public_key_hex toy_crypto ltb_ℤ leb_ℤ ◌-ℤ◌ ◌+ℤ◌ Map.get
    Map.insert
listed = refl

abbrev reached : Reached toy_crypto listing_bytes body_bytes always_written none one_listed
reached = announced (pos 1100) none signed_listing [] start

Reached-IsOwned_example :
    IsOwned toy_crypto listing_bytes body_bytes always_written none alice.node_id entry
Reached-IsOwned_example =
    Reached-IsOwned toy_crypto listing_bytes body_bytes always_written none one_listed alice.node_id
      entry reached listed

abbrev farewell : PublicUnannounce
farewell = record {
  node_id = alice.node_id;
  issued_at = pos 1150;
  signature = toy_crypto.b64_encode (replicate 64 1);
}

taken_off :
    public_unannounce toy_crypto listing_bytes body_bytes always_written none
      (pos 1151)
      none
      farewell
      one_listed
    ≡ (no_content, [])
unfolding public_announce public_unannounce is_timely authorized verify_public_listing
    verify_signature node_id_from_public_hex node_id_from_verifying from_seed public_key_hex
    toy_crypto ltb_ℤ leb_ℤ ◌-ℤ◌ ◌+ℤ◌ Map.get Map.insert Map.remove
taken_off = refl

public_unannounce-IsWithdrawal_example :
    IsWithdrawal toy_crypto listing_bytes body_bytes always_written none
      (pos 1151)
      none
      farewell
      one_listed
public_unannounce-IsWithdrawal_example =
    public_unannounce-IsWithdrawal toy_crypto listing_bytes body_bytes always_written none
      (pos 1151) none farewell one_listed reached

abbrev query : SearchQuery
query = record {
  gpu = some "rtx";
  min_vram_mb = some 4096;
  cuda = none;
  region = none;
  available = some "idle";
}

abbrev fast : PublicListing
fast = record signed_listing {
  gpu_model = some "RTX 4090";
  vram_mb = some 24576;
  perf_score = some 9;
}

abbrev slow : PublicListing
slow = record fast { perf_score = some 3 }

abbrev three_listed : Directory
three_listed =
    ("n1", record { listing = slow; updated_at = pos 1100 })
    ∷ ("n2", entry)
    ∷ ("n3", record { listing = fast; updated_at = pos 1100 })
    ∷ []

best_first : public_search (pos 1200) query three_listed ≡ fast ∷ slow ∷ []
unfolding public_search matching entry_matches field_matches contains_text strip_prefix
    sort_listings is_better eq_ignore_ascii_case ascii_lower ltb_ℤ ◌-ℤ◌
best_first = refl
