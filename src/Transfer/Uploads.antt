-- ===== src/Transfer/Uploads.antt =====
-- The provider's uploads in `serve_peer_session` of crates/gpumesh-core/src/remote.rs. The disk is
-- a map from paths to contents, and a handler returns the messages that it sends, with the new
-- state.
pub mod Complete
pub mod Whole
use gpu_share.Transfer.{apply_chunk}
use gpu_share.Protocol.{file_ack, Message, FileOffer, FileChunk}
use gpu_share.Base.{
  list_eq, nat_eq, eq_ignore_ascii_case, ltb, codes, ℕ, zero, suc, String, Bool, true, false,
  Option, none, some, List, [], ◌∷◌, ◌++◌, inl, inr, ◌≡◌, ◌≢◌, refl, ap, sym, arith, if◌then◌else◌,
  ◌==◌, nat_eq, string_eq, ◌+◌, ◌-◌, ◌*◌, ◌≤◌, ◌<◌, min, max, ◌&&◌, ◌||◌, not, ◌&◌, ◌⊎◌, ◌↔◌,
  length,
}
use gpu_share.Common.{ok, err, ◌>>=◌, ◌>>◌, Result}
use gpu_share.Base.Map
use gpu_share.Base.Map.{Map}
use gpu_share.Transfer.Paths.{upload_dest, Name, Files}

pub record UploadState : Type 0 where
  pub uploads : Map String (FileOffer × List ℕ)
  pub disk : Map (List Name) (List ℕ)

-- The hash of the contents, in hexadecimal.
abbrev pub Sha256 : Type 0
Sha256 = List ℕ → String

abbrev pub Handled : Type 0
Handled = Result (List Message × UploadState)

-- `format!("{}.partial", dest.display())`.
unfoldable pub partial_of : List Name → List Name
partial_of [] = codes ".partial" ∷ []
partial_of (p ∷ []) = (p ++ codes ".partial") ∷ []
partial_of (p ∷ q ∷ ps) = p ∷ partial_of (q ∷ ps)

-- A partial file that is shorter than the offer.
unfoldable pub resumable : ℕ → Option (List ℕ) → List ℕ
resumable size none = []
resumable size (some existing) = if ltb (length existing) size then existing else []

-- The arm for an offer in the direction `upload`.
unfoldable pub handle_file_offer : Files → FileOffer → UploadState → Handled
handle_file_offer fs offer st = upload_dest fs offer.path offer.transfer_id >>= λ dest.
    let buf = resumable offer.size (Map.get (partial_of dest) st.disk) in
    ok (
      file_ack (record {
        transfer_id = offer.transfer_id;
        ok = true;
        error = none;
        resume_from = some (length buf);
      })
          ∷ [],
      record st { uploads = Map.insert offer.transfer_id (offer, buf) st.uploads },
    )

-- The partial file follows the buffer; a path that is refused has none.
abbrev pub write_partial :
    Result (List Name) → List ℕ → Map (List Name) (List ℕ) → Map (List Name) (List ℕ)
write_partial (err e) buf disk = disk
write_partial (ok dest) buf disk = Map.insert (partial_of dest) buf disk

abbrev pub hash_ok : Sha256 → FileOffer → List ℕ → Bool
hash_ok sha offer bytes =
    offer.sha256_hex == "" || eq_ignore_ascii_case (sha bytes) offer.sha256_hex

abbrev pub mismatch : Bool → String → String → Option String
mismatch true expected actual = none
mismatch false expected actual = some ("sha256 mismatch: expected " & expected & ", got " & actual)

-- The end of an upload: the file is written, and removed again if its hash is not the offered one.
unfoldable pub finish_upload : Files → Sha256 → String → FileOffer → List ℕ → UploadState → Handled
finish_upload fs sha tid offer bytes st = upload_dest fs offer.path tid >>= λ dest.
    let good = hash_ok sha offer bytes in
    let wrote = Map.insert dest bytes st.disk in
    let kept = if good then wrote else Map.remove dest wrote in
    ok (
      file_ack (record {
        transfer_id = tid;
        ok = good;
        error = mismatch good offer.sha256_hex (sha bytes);
        resume_from = none;
      })
          ∷ [],
      record st { disk = Map.remove (partial_of dest) kept },
    )

unfoldable pub handle_file_chunk : Files → Sha256 → FileChunk → UploadState → Handled
handle_file_chunk fs sha c st = elim (Map.get c.transfer_id st.uploads) [
  | none ↦ ok ([], st)
  | some (offer, old) ↦
      let buf = apply_chunk old c in
      let disk = write_partial (upload_dest fs offer.path c.transfer_id) buf st.disk in
      if c.eof
      then finish_upload fs sha c.transfer_id offer buf
          (record { uploads = Map.remove c.transfer_id st.uploads; disk = disk })
      else ok
          ([], record { uploads = Map.insert c.transfer_id (offer, buf) st.uploads; disk = disk })
]

-- The chunks of one or several uploads in the order in which they arrive; an error ends the
-- session.
unfoldable pub handle_chunks : Files → Sha256 → List FileChunk → UploadState → Handled
handle_chunks fs sha [] st = ok ([], st)
handle_chunks fs sha (c ∷ cs) st = handle_file_chunk fs sha c st >>= λ r.
    handle_chunks fs sha cs r.1 >>= λ r'. ok (r.0 ++ r'.0, r'.1)
