-- ===== src/Transfer.antt =====
-- File transfer of crates/gpumesh-core/src/remote.rs: the chunks of `upload_file`, and the
-- provider's uploads in `serve_peer_session`.
pub mod Chunks
pub mod Paths
pub mod Uploads
pub mod Download
pub mod Fetched
mod Tests
use gpu_share.Protocol.{Message, file_ack, FileChunk}
use gpu_share.Base.{
  is_empty, leb, drop, unwrap_or, replicate, take, ℕ, zero, suc, String, Bool, true, false, Option,
  none, some, List, [], ◌∷◌, ◌++◌, inl, inr, ◌≡◌, ◌≢◌, refl, ap, sym, arith, if◌then◌else◌, ◌==◌,
  nat_eq, string_eq, ◌+◌, ◌-◌, ◌*◌, ◌≤◌, ◌<◌, min, max, ◌&&◌, ◌||◌, not, ◌&◌, ◌⊎◌, ◌↔◌, length,
}
use gpu_share.Common.{protocol, storage, ok, err, ◌>>=◌, ◌>>◌, Result}

abbrev pub chunk_size : ℕ
chunk_size = 256 * 1024

abbrev pub file_chunk_of : String → ℕ → List ℕ → Bool → FileChunk
file_chunk_of id offset bytes eof = record {
  transfer_id = id;
  offset = offset;
  bytes = bytes;
  eof = eof;
}

-- `slice.chunks(size)`: the fuel is the length of the slice.
unfoldable pub chunks : ℕ → ℕ → List ℕ → List (List ℕ)
chunks size fuel [] = []
chunks size zero (b ∷ slice) = []
chunks size (suc fuel) (b ∷ slice) =
    take size (b ∷ slice) ∷ chunks size fuel (drop size (b ∷ slice))

-- The loop that sends the chunks from an offset on, of a file of `total` bytes.
unfoldable pub send_from : String → ℕ → ℕ → List (List ℕ) → List FileChunk
send_from id total offset [] = []
send_from id total offset (c ∷ cs) =
    file_chunk_of id offset c (leb total (offset + length c))
    ∷ send_from id total (offset + length c) cs

-- Where `upload_file` starts, by the reply to its offer; `debug` prints an unexpected one.
unfoldable pub upload_start : (Option Message → String) → ℕ → Option Message → Result ℕ
upload_start debug total (some (file_ack a)) =
    if a.ok
    then ok (min (unwrap_or a.resume_from 0) total)
    else err (storage (unwrap_or a.error "upload rejected"))
upload_start debug total reply = err (protocol ("expected FileAck after offer, got " & debug reply))

-- What it sends then.
unfoldable pub upload_chunks : String → List ℕ → ℕ → List FileChunk
upload_chunks id bytes start =
    let slice = drop start bytes in
    if is_empty slice
    then file_chunk_of id start [] true ∷ []
    else send_from id (length bytes) start (chunks chunk_size (length slice) slice)

-- How it ends, by the reply to the last chunk.
unfoldable pub upload_outcome : (Option Message → String) → Option Message → Result (Unit {0})
upload_outcome debug (some (file_ack a)) =
    if a.ok then ok tt else err (storage (unwrap_or a.error "upload rejected"))
upload_outcome debug reply = err (protocol ("expected FileAck, got " & debug reply))

-- The buffer after a chunk: a gap before it is filled with zeros, a chunk within the buffer
-- overwrites, and one that passes its end replaces the rest.
unfoldable pub apply_chunk : List ℕ → FileChunk → List ℕ
apply_chunk buf c =
    let full = buf ++ replicate (c.offset - length buf) 0 in
    if c.offset == length full
    then full ++ c.bytes
    else if leb (c.offset + length c.bytes) (length full)
    then take c.offset full ++ c.bytes ++ drop (c.offset + length c.bytes) full
    else take c.offset full ++ c.bytes
