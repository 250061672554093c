-- ===== src/Storage/Invites/Exchange.antt =====
-- Invites of crates/gpumesh-storage/src/groups.rs on their way from the owner to a guest.
use gpu_share.Security.Crypto.Laws.{names_key, node_id-public_key_hex, verify_signature-sign_b64}
use gpu_share.Base.{
  ==_refl, trim_lem, Parsed-cases, Json, ℕ, String, Bool, true, List, inl, inr, ◌≡◌, arith, nat_eq,
  string_eq, ◌&&◌, ◌||◌, not,
}
use gpu_share.Common.{identity, bail_if, pairing_ttl_secs, ok, ◌>>◌, Result}
use gpu_share.Base.Int.{ℤ, pos, ltb_ℤ, leb_ℤ, ◌+ℤ◌, ◌-ℤ◌}
use gpu_share.Security.Crypto.{node_id_from_public_hex, verify_signature, from_seed, Crypto}
use gpu_share.Storage.Groups.{Group}
use gpu_share.Storage.Invites.{
  bare_invite, canonical_invite_bytes, create_invite, verify_invite, decode_invite, encode_invite,
  GroupInvite,
}

-- At most an hour after an invite was issued, and at most one minute before.
abbrev pub invite_window : ℤ → ℤ → Bool
invite_window now t = ltb_ℤ (pos 0) t && (leb_ℤ (now -ℤ t) (pos 3600) && leb_ℤ t (now +ℤ pos 60))

invite_tests :
    (now t : ℤ)
    → invite_window now t ≡ (
        not (leb_ℤ t (pos 0) || ltb_ℤ pairing_ttl_secs (now -ℤ t)) && not (ltb_ℤ (now +ℤ pos 60) t))
unfolding leb_ℤ ltb_ℤ
invite_tests now t = ground arith

module _ (c : Crypto) (json : Json GroupInvite) where
  verify_invite-create_invite :
      (seed : List ℕ) (group : Group) (owner_name : String) (t now : ℤ)
      → group.owner_node_id ≡ (from_seed c seed).node_id
      → invite_window now t ≡ true
      → verify_invite c json now (create_invite c json t (from_seed c seed) group owner_name)
        ≡ ok tt
  unfolding verify_invite create_invite bare_invite
  verify_invite-create_invite seed group owner_name t now owned fresh =
      let id = from_seed c seed in
      let bare = bare_invite c json t id group owner_name in
      ground (
        arith,
        verify_signature-sign_b64 c id (canonical_invite_bytes c json bare),
        node_id-public_key_hex c seed,
        invite_tests now t,
        ==_refl id.node_id,
      )

  -- The owner of a group makes an invite to it and encodes it: the code decodes to that invite at
  -- any time of its window.
  pub decode_invite-encode_invite :
      (seed : List ℕ) (group : Group) (owner_name : String) (t now : ℤ) (code : String)
      → group.owner_node_id ≡ (from_seed c seed).node_id
      → invite_window now t ≡ true
      → encode_invite c json (create_invite c json t (from_seed c seed) group owner_name) ≡ ok code
      → decode_invite c json now code
        ≡ ok (create_invite c json t (from_seed c seed) group owner_name)
  unfolding encode_invite decode_invite
  decode_invite-encode_invite seed group owner_name t now code owned fresh h =
      let made = create_invite c json t (from_seed c seed) group owner_name in
      elim (Parsed-cases (json.to_vec made)) [
        | inl b ↦ absurd (ground arith)
        | inr g ↦
            let spelled : code ≡ c.b64_encode g.0 = ground arith in
            ground (
              arith,
              trim_lem (c.b64_encode g.0) (c.b64_no_whitespace g.0),
              c.b64_decode-encode g.0,
              json.from_slice-to_vec made g.0 g.1,
              verify_invite-create_invite seed group owner_name t now owned fresh,
            )
      ]

  decode_invite_verified :
      (now : ℤ) (code : String) (i : GroupInvite)
      → decode_invite c json now code ≡ ok i
      → verify_invite c json now i ≡ ok tt
  unfolding decode_invite
  decode_invite_verified now code i h = ground arith

  -- An invite that is taken is in its window, is signed in all its other fields by the key that it
  -- shows, and names the node of that key as the group's owner.
  pub decode_invite_sound :
      (now : ℤ) (code : String) (i : GroupInvite)
      → decode_invite c json now code ≡ ok i
      → (invite_window now i.issued_at ≡ true)
        × (verify_signature c i.owner_public_key_hex (canonical_invite_bytes c json i) i.signature
            ≡ ok tt)
        × (node_id_from_public_hex c i.owner_public_key_hex ≡ ok i.owner_node_id)
  unfolding verify_invite canonical_invite_bytes
  decode_invite_sound now code i h =
      let v : verify_invite c json now i ≡ ok tt = decode_invite_verified now code i h in
      (
        ground (arith, invite_tests now i.issued_at),
        ground arith,
        names_key (node_id_from_public_hex c i.owner_public_key_hex) i.owner_node_id
            (identity "group invite owner does not match public key") late (ground arith),
      )
    where
      late : Result (Unit {0})
      late = do
        bail_if (leb_ℤ i.issued_at (pos 0) || ltb_ℤ pairing_ttl_secs (now -ℤ i.issued_at))
            (identity "group invite expired (valid 3600s)")
        bail_if (ltb_ℤ (now +ℤ pos 60) i.issued_at)
            (identity "group invite timestamp is in the future")
        ok tt
