-- ===== src/Directory/Found.antt =====
-- The results of the search of crates/gpumesh-control/src/main.rs.
use gpu_share.Base.{ℕ, suc, Bool, true, List, [], ◌∷◌, if◌then◌else◌, nat_eq, string_eq, ◌&&◌, not}
use gpu_share.Base.Int.{ℤ}
use gpu_share.Security.Listing.{PublicListing}
use gpu_share.Directory.{Directory}
use gpu_share.Directory.Search.{is_better, entry_matches, SearchQuery}

-- No result is followed at once by a better one.
abbrev pub in_order : List PublicListing → Bool
in_order [] = true
in_order (x ∷ []) = true
in_order (x ∷ y ∷ ys) = not (is_better y x) && in_order (y ∷ ys)

-- How many results pass a test.
abbrev pub count : (PublicListing → Bool) → List PublicListing → ℕ
count t [] = 0
count t (x ∷ xs) = let rest = count t xs in if t x then suc rest else rest

-- How many entries match the query and have a listing that passes a test.
abbrev pub count_entries : ℤ → SearchQuery → (PublicListing → Bool) → Directory → ℕ
count_entries now q t [] = 0
count_entries now q t ((id, e) ∷ public) =
    let rest = count_entries now q t public in
    if entry_matches now q e && t e.listing then suc rest else rest
