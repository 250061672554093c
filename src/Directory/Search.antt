-- ===== src/Directory/Search.antt =====
-- `public_search` of crates/gpumesh-control/src/main.rs.
use gpu_share.Jobs.{strip_prefix}
use gpu_share.Base.{
  unwrap_or, is_some, eq_ignore_ascii_case, leb, ltb, codes, ascii_lower, is_empty, ℕ, String, Bool,
  true, false, Option, none, some, List, [], ◌∷◌, if◌then◌else◌, ◌==◌, nat_eq, string_eq, ◌&&◌,
  ◌||◌, not,
}
use gpu_share.Base.Int.{ℤ, ltb_ℤ, ◌-ℤ◌}
use gpu_share.Security.Listing.{PublicListing}
use gpu_share.Directory.{public_ttl_secs, PublicEntry, Directory}

pub record SearchQuery : Type 0 where
  pub gpu : Option String
  pub min_vram_mb : Option ℕ
  pub cuda : Option String
  pub region : Option String
  pub available : Option String

-- `to_ascii_lowercase`, over the code points.
abbrev lower_codes : List ℕ → List ℕ
lower_codes [] = []
lower_codes (c ∷ s) = ascii_lower c ∷ lower_codes s

-- `contains` of a text in a text.
unfoldable pub contains_text : List ℕ → List ℕ → Bool
contains_text part [] = is_empty part
contains_text part (c ∷ s) = is_some (strip_prefix part (c ∷ s)) || contains_text part s

-- A field that the query asks for has its text in it, but for case.
unfoldable pub field_matches : Option String → Option String → Bool
field_matches none field = true
field_matches (some asked) field =
    contains_text (lower_codes (codes asked)) (lower_codes (codes (unwrap_or field "")))

abbrev at_least : Option ℕ → PublicListing → Bool
at_least none l = true
at_least (some least) l =
    leb least (unwrap_or l.vram_mb 0) || leb least (unwrap_or l.vram_free_mb 0)

abbrev wants_idle : Option String → Bool
wants_idle none = false
wants_idle (some a) = a == "1" || a == "true" || a == "yes" || a == "idle"

-- All the filters of the search.
unfoldable pub entry_matches : ℤ → SearchQuery → PublicEntry → Bool
entry_matches now q e =
    ltb_ℤ (now -ℤ e.updated_at) public_ttl_secs
    && (e.listing.is_public && e.listing.sharing)
    && field_matches q.gpu e.listing.gpu_model
    && at_least q.min_vram_mb e.listing
    && field_matches q.cuda e.listing.cuda_version
    && field_matches q.region e.listing.region
    && (not (wants_idle q.available) || eq_ignore_ascii_case e.listing.availability "idle")

unfoldable pub matching : ℤ → SearchQuery → Directory → List PublicListing
matching now q [] = []
matching now q ((id, e) ∷ public) =
    let rest = matching now q public in if entry_matches now q e then e.listing ∷ rest else rest

-- The order of the results: the performance first, then the free memory.
unfoldable pub is_better : PublicListing → PublicListing → Bool
is_better a b =
    ltb (unwrap_or b.perf_score 0) (unwrap_or a.perf_score 0)
    || (unwrap_or a.perf_score 0 == unwrap_or b.perf_score 0
        && ltb (unwrap_or b.vram_free_mb 0) (unwrap_or a.vram_free_mb 0))

-- A stable sort, by insertion.
abbrev pub insert_listing : PublicListing → List PublicListing → List PublicListing
insert_listing x [] = x ∷ []
insert_listing x (y ∷ ys) =
    let rest = insert_listing x ys in if is_better y x then y ∷ rest else x ∷ y ∷ ys

unfoldable pub sort_listings : List PublicListing → List PublicListing
sort_listings [] = []
sort_listings (x ∷ xs) = insert_listing x (sort_listings xs)

unfoldable pub public_search : ℤ → SearchQuery → Directory → List PublicListing
public_search now q public = sort_listings (matching now q public)
