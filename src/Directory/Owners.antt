-- ===== src/Directory/Owners.antt =====
-- The nodes behind the listings of crates/gpumesh-control/src/main.rs.
use mathlib.Core.Path.{subst}
use gpu_share.Security.Listing.Checks.{verify_public_listing_sound, announce_window}
use gpu_share.Base.{
  Option-cases, not, ◌||◌, none, ◌⊎◌, arith, str_iff, ◌∙◌, Bool-cases, ℕ, String, Bool, true,
  Option, some, List, [], inl, inr, ◌≡◌, refl, ap, sym, if◌then◌else◌, ◌==◌, nat_eq, string_eq,
}
use gpu_share.Common.{is_ok, ok, err, Result}
use gpu_share.Base.Map
use gpu_share.Base.Map.{Map}
use gpu_share.Base.Int.{ℤ}
use gpu_share.Security.Crypto.{verify_signature, node_id_from_public_hex, Crypto}
use gpu_share.Security.Listing.{
  listing_payload, verify_public_listing, PublicListing, PublicUnannounce,
}
use gpu_share.Directory.{
  is_timely, authorized, public_unannounce, public_announce, PublicEntry, Directory, StatusCode,
}

is_ok-eq : (r : Result (Unit {0})) → is_ok r ≡ true → r ≡ ok tt
is_ok-eq (ok _) h = refl
is_ok-eq (err e) h = cc

some-entry : (a b : PublicEntry) → some a ≡ some b → a ≡ b
some-entry a b e = cc

module _ (c : Crypto) (to_vec : PublicListing → List ℕ)
    (unannounce_bytes : PublicUnannounce → List ℕ) (persist_state : Directory → Option StatusCode)
    (api_token : Option String) where
  -- An entry is the listing of the node that it stands under: that node's key signed it, at a time
  -- that was fresh when the entry was made.
  pub record IsOwned (id : String) (e : PublicEntry) : Type 0 where
    pub named : e.listing.node_id ≡ id
    pub keyed : node_id_from_public_hex c e.listing.public_key_hex ≡ ok id
    pub signed :
        verify_signature c e.listing.public_key_hex
          (to_vec (record e.listing { signature = "" }))
          e.listing.signature
        ≡ ok tt
    pub fresh : announce_window e.updated_at e.listing.issued_at ≡ true

  -- The tables that requests make, from the empty one, at any times and with any contents.
  pub data Reached : Directory → Type 0 where
    start : Reached []
    announced :
        (now : ℤ) (header : Option String) (listing : PublicListing) (public : Directory)
        → Reached public
        → Reached
            (public_announce c to_vec unannounce_bytes persist_state api_token now header listing
              public).1
    withdrawn :
        (now : ℤ) (header : Option String) (body : PublicUnannounce) (public : Directory)
        → Reached public
        → Reached
            (public_unannounce c to_vec unannounce_bytes persist_state api_token now header body
              public).1

  abbrev AllOwned : Directory → Type 0
  AllOwned public = (id : String) (e : PublicEntry) → Map.get id public ≡ some e → IsOwned id e

  verified-IsOwned :
      (now : ℤ) (l : PublicListing)
      → verify_public_listing c (listing_payload to_vec) now l ≡ ok tt
      → IsOwned l.node_id (record { listing = l; updated_at = now })
  verified-IsOwned now l h =
      let (window, fits, names_it) =
        verify_public_listing_sound c (listing_payload to_vec) now l h in
      record { named = refl; keyed = names_it; signed = fits; fresh = window }

  insert-AllOwned :
      (l : PublicListing) (now : ℤ) (public : Directory)
      → IsOwned l.node_id (record { listing = l; updated_at = now })
      → AllOwned public
      → AllOwned (Map.insert l.node_id (record { listing = l; updated_at = now }) public)
  insert-AllOwned l now public new w id e h =
      let made : PublicEntry = record { listing = l; updated_at = now } in
      let law : Map.get id (Map.insert l.node_id made public)
          ≡ (if l.node_id == id then some made else Map.get id public) =
        Map.get-insert l.node_id id made public in
      elim (Bool-cases (l.node_id == id)) [
        | inr n ↦
            w id e (sym (law ∙ ap (λ (b : Bool). if b then some made else Map.get id public) n) ∙ h)
        | inl y ↦
            let same : made ≡ e =
              some-entry made e
                (sym (law ∙ ap (λ (b : Bool). if b then some made else Map.get id public) y) ∙ h) in
            let key : l.node_id ≡ id = (str_iff l.node_id id).0 y in
            subst (λ (x : PublicEntry). IsOwned id x) same
              (subst (λ (k : String). IsOwned k made) key new)
      ]

  announced-AllOwned :
      (now : ℤ) (header : Option String) (l : PublicListing) (public : Directory)
      → AllOwned public
      → AllOwned
          (public_announce c to_vec unannounce_bytes persist_state api_token now header l public).1
  unfolding public_announce
  announced-AllOwned now header l public w = elim (Bool-cases (authorized api_token header)) [
    | inr n ↦ rw (n, public_announce) w
    | inl y ↦
        let check : Result (Unit {0}) = verify_public_listing c (listing_payload to_vec) now l in
        elim (Bool-cases (l.node_id == "" || not (is_ok check))) [
          | inl bad ↦ rw (y, bad, public_announce) w
          | inr good ↦
              let passed : check ≡ ok tt = is_ok-eq check (ground arith) in
              rw (y, good, public_announce)
                (insert-AllOwned l now public (verified-IsOwned now l passed) w)
        ]
  ]

  -- What a withdrawal did: it left the table as it was, or it took off the entry of the node that it
  -- names and no other, and that node's key signed it.
  abbrev pub IsWithdrawal : ℤ → Option String → PublicUnannounce → Directory → Type 0
  IsWithdrawal now header body public =
      ((public_unannounce c to_vec unannounce_bytes persist_state api_token now header body
          public).1
        ≡ public)
      ⊎ ((key : String) × (node_id_from_public_hex c key ≡ ok body.node_id)
          × (verify_signature c key (unannounce_bytes body) body.signature ≡ ok tt)
          × ((j : String)
              → Map.get j
                  (public_unannounce c to_vec unannounce_bytes persist_state api_token now header
                    body public).1
                ≡ (if body.node_id == j then none else Map.get j public)))

  withdrawal :
      (now : ℤ) (header : Option String) (body : PublicUnannounce) (public : Directory)
      → AllOwned public
      → IsWithdrawal now header body public
  unfolding public_unannounce
  withdrawal now header body public w = elim (Bool-cases (authorized api_token header)) [
    | inr n ↦ inl (rw (n, public_unannounce) refl)
    | inl y ↦
        elim (Bool-cases (is_timely c to_vec unannounce_bytes persist_state api_token now body)) [
          | inr late ↦ inl (rw (y, late, public_unannounce) refl)
          | inl timely ↦ elim (Option-cases (Map.get body.node_id public)) [
            | inl unknown ↦ inl (rw (y, timely, unknown, public_unannounce) refl)
            | inr (entry, found) ↦
                let check : Result (Unit {0}) =
                  verify_signature c entry.listing.public_key_hex (unannounce_bytes body)
                    body.signature in
                elim (Bool-cases (is_ok check)) [
                  | inr bad ↦ inl (rw (y, timely, found, bad, public_unannounce) refl)
                  | inl good ↦
                      let owned : IsOwned body.node_id entry = w body.node_id entry found in
                      inr (
                        entry.listing.public_key_hex,
                        owned.keyed,
                        is_ok-eq check good,
                        λ j.
                            rw (y, timely, found, good, public_unannounce)
                              (Map.get-remove body.node_id j public),
                      )
                ]
          ]
        ]
  ]

  withdrawn-AllOwned :
      (now : ℤ) (header : Option String) (body : PublicUnannounce) (public : Directory)
      → AllOwned public
      → AllOwned
          (public_unannounce c to_vec unannounce_bytes persist_state api_token now header body
            public).1
  withdrawn-AllOwned now header body public w = elim (withdrawal now header body public w) [
    | inl same ↦ subst (λ (d : Directory). AllOwned d) (sym same) w
    | inr (key, named, fits, gets) ↦ λ id e h. w id e (ground (arith, sym (gets id) ∙ h))
  ]

  -- In a table that requests made, from the empty one, every entry belongs to the node that it
  -- stands under: the listing names that node, that node's key signed it, and it was fresh when the
  -- entry was made.
  pub Reached-IsOwned :
      (public : Directory) (id : String) (e : PublicEntry)
      → Reached public
      → Map.get id public ≡ some e
      → IsOwned id e
  unfolding Map.get
  Reached-IsOwned public id e r h = all_owned public r id e h
    where
      all_owned : (d : Directory) → Reached d → AllOwned d
      all_owned _ start = λ i x k. absurd (ground arith)
      all_owned _ (announced now header l d r) = announced-AllOwned now header l d (all_owned d r)
      all_owned _ (withdrawn now header body d r) =
          withdrawn-AllOwned now header body d (all_owned d r)

  -- A withdrawal from a table that requests made is an `IsWithdrawal`: nobody but the listed node
  -- takes its listing off.
  pub public_unannounce-IsWithdrawal :
      (now : ℤ) (header : Option String) (body : PublicUnannounce) (public : Directory)
      → Reached public
      → IsWithdrawal now header body public
  public_unannounce-IsWithdrawal now header body public r =
      withdrawal now header body public (λ id e h. Reached-IsOwned public id e r h)
