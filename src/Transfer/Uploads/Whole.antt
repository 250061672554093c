-- ===== src/Transfer/Uploads/Whole.antt =====
-- A whole upload of crates/gpumesh-core/src/remote.rs, from the sender's chunks to the stored file.
use gpu_share.Transfer.{upload_outcome, upload_start, upload_chunks}
use gpu_share.Protocol.{Message, upload, FileOffer}
use gpu_share.Base.{
  take, nat_eq, list_eq, ℕ, String, Option, none, some, List, [], ◌∷◌, ◌≡◌, nat_eq, string_eq,
  length,
}
use gpu_share.Common.{ok}
use gpu_share.Base.Map
use gpu_share.Base.Map.{Map}
use gpu_share.Transfer.Paths.{Name, Files}
use gpu_share.Transfer.Uploads.{handle_file_offer, handle_chunks, partial_of, UploadState, Sha256}

-- What the sender of a file offers.
abbrev pub offer_of : Sha256 → String → String → List ℕ → FileOffer
offer_of sha tid path bytes = record {
  transfer_id = tid;
  path = path;
  size = length bytes;
  sha256_hex = sha bytes;
  direction = upload;
}

-- The partial file, where there is one, that a former attempt at the same file left.
abbrev pub IsPrefix : List ℕ → Option (List ℕ) → Type 0
IsPrefix bytes none = Unit
IsPrefix bytes (some p) = p ≡ take (length p) bytes

-- The whole exchange: the offer has one reply, which tells the sender where to start; the chunks from
-- there on have one reply, at their end, which tells the sender that it is done; then the file is on
-- the disk, and neither a partial file nor an open upload is left.
abbrev pub Uploaded :
    Files
    → Sha256
    → (Option Message → String)
    → String
    → String
    → List ℕ
    → List Name
    → UploadState
    → Type 0
Uploaded fs sha debug tid path bytes dest st =
    (start : ℕ) × (first : Message) × (last : Message) × (st1 : UploadState) × (st2 : UploadState)
    × (handle_file_offer fs (offer_of sha tid path bytes) st ≡ ok (first ∷ [], st1))
    × (upload_start debug (length bytes) (some first) ≡ ok start)
    × (handle_chunks fs sha (upload_chunks tid bytes start) st1 ≡ ok (last ∷ [], st2))
    × (upload_outcome debug (some last) ≡ ok tt)
    × (Map.get dest st2.disk ≡ some bytes)
    × (Map.get (partial_of dest) st2.disk ≡ none)
    × (Map.get tid st2.uploads ≡ none)
