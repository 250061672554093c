-- ===== src/Directory.antt =====
-- The public directory of crates/gpumesh-control/src/main.rs: the listings of nodes that offer their
-- GPU to everyone. A handler returns the HTTP status and the new table; writing the state's file is
-- a parameter, which may fail, and a request reads the clock once, in seconds.
pub mod Owners
pub mod Search
pub mod Found
mod Tests
use gpu_share.Base.{
  ℕ, zero, suc, String, Bool, true, false, Option, none, some, List, [], ◌∷◌, ◌++◌, inl, inr, ◌≡◌,
  ◌≢◌, refl, ap, sym, arith, if◌then◌else◌, ◌==◌, nat_eq, string_eq, ◌+◌, ◌-◌, ◌*◌, ◌≤◌, ◌<◌, min,
  max, ◌&&◌, ◌||◌, not, ◌&◌, ◌⊎◌, ◌↔◌, length,
}
use gpu_share.Common.{is_ok, announce_ttl_secs, ok, err, ◌>>=◌, ◌>>◌, Result}
use gpu_share.Base.Map
use gpu_share.Base.Map.{Map}
use gpu_share.Base.Int.{ℤ, pos, ltb_ℤ, leb_ℤ, ◌+ℤ◌, ◌-ℤ◌}
use gpu_share.Security.Crypto.{verify_signature, Crypto}
use gpu_share.Security.Listing.{
  listing_payload, verify_public_listing, PublicListing, PublicUnannounce,
}

pub data StatusCode : Type 0 where
  unauthorized bad_request not_found no_content internal_server_error : StatusCode

pub record PublicEntry : Type 0 where
  pub listing : PublicListing
  pub updated_at : ℤ

abbrev pub Directory : Type 0
Directory = Map String PublicEntry

abbrev pub public_ttl_secs : ℤ
public_ttl_secs = pos 180

-- The token that the server asks for, if any, and the request's header.
unfoldable pub authorized : Option String → Option String → Bool
authorized none header = true
authorized (some token) none = false
authorized (some token) (some value) = value == "Bearer " & token

-- The status of a change that was made, by whether the state could be written.
abbrev pub persisted : Option StatusCode → StatusCode
persisted none = no_content
persisted (some status) = status

module _ (c : Crypto) (to_vec : PublicListing → List ℕ)
    (unannounce_bytes : PublicUnannounce → List ℕ) (persist_state : Directory → Option StatusCode)
    (api_token : Option String) where
  unfoldable pub public_announce :
      ℤ → Option String → PublicListing → Directory → StatusCode × Directory
  public_announce now header listing public =
      if not (authorized api_token header)
      then (unauthorized, public)
      else if listing.node_id == ""
          || not (is_ok (verify_public_listing c (listing_payload to_vec) now listing))
      then (bad_request, public)
      else let entry : PublicEntry = record { listing = listing; updated_at = now } in
        let public' = Map.insert listing.node_id entry public in
        (persisted (persist_state public'), public')

  -- The tests of the withdrawal itself, before the table is read.
  unfoldable pub is_timely : ℤ → PublicUnannounce → Bool
  is_timely now body = not (
      body.node_id == ""
      || leb_ℤ body.issued_at (pos 0)
      || ltb_ℤ announce_ttl_secs (now -ℤ body.issued_at)
      || ltb_ℤ (now +ℤ pos 60) body.issued_at)

  unfoldable pub public_unannounce :
      ℤ → Option String → PublicUnannounce → Directory → StatusCode × Directory
  public_unannounce now header body public =
      if not (authorized api_token header)
      then (unauthorized, public)
      else if not (is_timely now body)
      then (bad_request, public)
      else elim (Map.get body.node_id public) [
        | none ↦ (not_found, public)
        | some entry ↦
            if not (
              is_ok (
                verify_signature c entry.listing.public_key_hex (unannounce_bytes body)
                  body.signature))
            then (unauthorized, public)
            else let public' = Map.remove body.node_id public in
              (persisted (persist_state public'), public')
      ]

unfoldable pub public_get : ℤ → String → Directory → Option PublicListing
public_get now id public = elim (Map.get id public) [
  | none ↦ none
  | some e ↦ if ltb_ℤ (now -ℤ e.updated_at) public_ttl_secs then some e.listing else none
]
