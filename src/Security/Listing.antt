-- ===== src/Security/Listing.antt =====
-- The public listing of crates/gpumesh-security/src/lib.rs, over the interface that the trait
-- `PublicListingPayload` gives, and its implementation in crates/gpumesh-network/src/rendezvous.rs.
pub mod Checks
mod Tests
use gpu_share.Base.{string_eq, not, ◌||◌, ◌==◌, Bool, ℕ, String, List, Option}
use gpu_share.Base.Int.{◌+ℤ◌, ◌-ℤ◌, ltb_ℤ, leb_ℤ, ℤ, pos}
use gpu_share.Common.{◌>>=◌, bail_if, ◌>>◌, Result, ok, err, identity, announce_ttl_secs}
use gpu_share.Security.Crypto.{
  node_id_from_public_hex, verify_signature, sign_b64, Crypto, NodeIdentity,
}

-- The trait: what the checks need of a listing.
pub record PublicListingPayload (L : Type 0) : Type 0 where
  pub node_id : L → String
  pub public_key_hex : L → String
  pub issued_at : L → ℤ
  pub set_issued_at : L → ℤ → L
  pub signature : L → String
  pub set_signature : L → String → L
  pub canonical_bytes : L → List ℕ

module _ (c : Crypto) {L : Type 0} (t : PublicListingPayload L) where
  unfoldable pub sign_public_listing : ℤ → NodeIdentity → L → L
  sign_public_listing now id listing =
      let stamped = t.set_signature (t.set_issued_at listing now) "" in
      t.set_signature stamped (sign_b64 c id (t.canonical_bytes stamped))

  unfoldable pub verify_public_listing : ℤ → L → Result (Unit {0})
  verify_public_listing now listing = do
    bail_if (t.signature listing == "") (identity "public listing missing signature")
    bail_if
        (leb_ℤ (t.issued_at listing) (pos 0)
          || ltb_ℤ announce_ttl_secs (now -ℤ t.issued_at listing))
        (identity "public listing expired or missing timestamp")
    bail_if (ltb_ℤ (now +ℤ pos 60) (t.issued_at listing))
        (identity "public listing timestamp is in the future")
    verify_signature c (t.public_key_hex listing) (t.canonical_bytes listing) (t.signature listing)
    expected ← node_id_from_public_hex c (t.public_key_hex listing)
    bail_if (not (expected == t.node_id listing))
        (identity "public listing node_id does not match public key")
    ok tt

pub record PublicListing : Type 0 where
  pub node_id : String
  pub node_name : String
  pub public_key_hex : String
  pub addrs : List String
  pub gpu_model : Option String
  pub vram_mb : Option ℕ
  pub vram_free_mb : Option ℕ
  pub cuda_version : Option String
  pub availability : String
  pub perf_score : Option ℕ
  pub latency_ms : Option ℕ
  pub region : Option String
  pub uptime_secs : Option ℕ
  pub sharing : Bool
  pub is_public : Bool
  pub utilization : Option ℕ
  pub issued_at : ℤ
  pub signature : String

-- `impl PublicListingPayload for PublicListing`; `to_vec` is serde_json's, with the empty text for
-- an error.
abbrev pub listing_payload : (PublicListing → List ℕ) → PublicListingPayload PublicListing
listing_payload to_vec = record {
  node_id = λ l. l.node_id;
  public_key_hex = λ l. l.public_key_hex;
  issued_at = λ l. l.issued_at;
  set_issued_at = λ l v. record l { issued_at = v };
  signature = λ l. l.signature;
  set_signature = λ l v. record l { signature = v };
  canonical_bytes = λ l. to_vec (record l { signature = "" });
}

pub record PublicUnannounce : Type 0 where
  pub node_id : String
  pub issued_at : ℤ
  pub signature : String
