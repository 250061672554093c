-- ===== src/Storage/Invites.antt =====
-- `GroupInvite` of crates/gpumesh-storage/src/groups.rs: the code by which the owner of a group lets
-- others in. `now` is the clock's reading, in seconds.
pub mod Exchange
mod Tests
use gpu_share.Base.{
  good, or_no_bytes, bad, trim, Json, Parsed, ℕ, zero, suc, String, Bool, true, false, Option, none,
  some, List, [], ◌∷◌, ◌++◌, inl, inr, ◌≡◌, ◌≢◌, refl, ap, sym, arith, if◌then◌else◌, ◌==◌, nat_eq,
  string_eq, ◌+◌, ◌-◌, ◌*◌, ◌≤◌, ◌<◌, min, max, ◌&&◌, ◌||◌, not, ◌&◌, ◌⊎◌, ◌↔◌, length,
}
use gpu_share.Common.{pairing_ttl_secs, identity, bail_if, storage, ok, err, ◌>>=◌, ◌>>◌, Result}
use gpu_share.Base.Int.{ℤ, pos, ltb_ℤ, leb_ℤ, ◌+ℤ◌, ◌-ℤ◌}
use gpu_share.Security.Crypto.{
  node_id_from_public_hex, sign_b64, verify_signature, public_key_hex, Crypto, NodeIdentity,
}
use gpu_share.Storage.Groups.{Group}

pub record GroupInvite : Type 0 where
  pub version : ℕ
  pub group_id : String
  pub group_name : String
  pub owner_node_id : String
  pub owner_name : String
  pub owner_public_key_hex : String
  pub issued_at : ℤ
  pub signature : String

abbrev or_storage : {A : Type 0} → String → Parsed A → Result A
or_storage p (bad e) = err (storage (p & e))
or_storage p (good a) = ok a

module _ (c : Crypto) (json : Json GroupInvite) where
  unfoldable pub canonical_invite_bytes : GroupInvite → List ℕ
  canonical_invite_bytes i = or_no_bytes (json.to_vec (record i { signature = "" }))

  unfoldable pub bare_invite : ℤ → NodeIdentity → Group → String → GroupInvite
  bare_invite now id group owner_name = record {
    version = 1;
    group_id = group.id;
    group_name = group.name;
    owner_node_id = group.owner_node_id;
    owner_name = owner_name;
    owner_public_key_hex = public_key_hex c id;
    issued_at = now;
    signature = "";
  }

  unfoldable pub create_invite : ℤ → NodeIdentity → Group → String → GroupInvite
  create_invite now id group owner_name =
      let bare = bare_invite now id group owner_name in
      record bare { signature = sign_b64 c id (canonical_invite_bytes bare) }

  unfoldable pub verify_invite : ℤ → GroupInvite → Result (Unit {0})
  verify_invite now i = do
    verify_signature c i.owner_public_key_hex (canonical_invite_bytes (record i { signature = "" }))
        i.signature
    expected ← node_id_from_public_hex c i.owner_public_key_hex
    bail_if (not (expected == i.owner_node_id))
        (identity "group invite owner does not match public key")
    bail_if (leb_ℤ i.issued_at (pos 0) || ltb_ℤ pairing_ttl_secs (now -ℤ i.issued_at))
        (identity "group invite expired (valid 3600s)")
    bail_if (ltb_ℤ (now +ℤ pos 60) i.issued_at) (identity "group invite timestamp is in the future")
    ok tt

  unfoldable pub encode_invite : GroupInvite → Result String
  encode_invite i = do bytes ← or_storage "" (json.to_vec i); ok (c.b64_encode bytes)

  unfoldable pub decode_invite : ℤ → String → Result GroupInvite
  decode_invite now code = do
    bytes ← or_storage "invalid invite: " (c.b64_decode (trim code))
    invite ← or_storage "invalid invite payload: " (json.from_slice bytes)
    verify_invite now invite
    ok invite
