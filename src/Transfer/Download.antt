-- ===== src/Transfer/Download.antt =====
-- Downloads of crates/gpumesh-core/src/remote.rs: `serve_download` at the provider, and the loop of
-- `transfer_file_from_peer`.
use gpu_share.Transfer.{chunk_size, chunks, send_from, file_chunk_of}
use gpu_share.Transfer.Paths.{resolve_download_path, Name, Files}
use gpu_share.Protocol.{error, download, file_ack, file_offer, file_chunk, Message, FileChunk}
use gpu_share.Base.{
  unwrap_or, is_empty, ℕ, String, true, false, Option, none, some, List, [], ◌∷◌, ◌++◌,
  if◌then◌else◌, nat_eq, string_eq, ◌&◌, length,
}
use gpu_share.Common.{storage, GpuMeshError, display, ok, err, Result}

abbrev download_offer : String → String → String → ℕ → Message
download_offer id path sha size =
    file_offer (record {
      transfer_id = id;
      path = path;
      size = size;
      sha256_hex = sha;
      direction = download;
    })

abbrev pub chunk_messages : List FileChunk → List Message
chunk_messages [] = []
chunk_messages (c ∷ cs) = file_chunk c ∷ chunk_messages cs

-- The messages of `send_file_chunks` for a file with that content; `sha256` is the digest in
-- hexadecimal digits.
unfoldable pub send_file_chunks : (List ℕ → String) → String → String → List ℕ → List Message
send_file_chunks sha256 id path bytes =
    download_offer id path (sha256 bytes) (length bytes)
    ∷ (if is_empty bytes
        then file_chunk (file_chunk_of id 0 [] true) ∷ []
        else chunk_messages
            (send_from id (length bytes) 0 (chunks chunk_size (length bytes) bytes)))

abbrev pub download_refused : String → String → Message
download_refused id why =
    file_ack (record { transfer_id = id; ok = false; error = some why; resume_from = none })

-- A file at the provider: none if it does not exist, else what reading it gives.
abbrev pub Readable : Type 0
Readable = Option (Result (List ℕ))

abbrev send_read :
    (List ℕ → String) → String → String → Result (List ℕ) → List Message × Result (Unit {0})
send_read sha256 id path (err e) = ([], err e)
send_read sha256 id path (ok bytes) = (send_file_chunks sha256 id path bytes, ok tt)

-- `serve_download`: the messages and the answer. `at_path` reads a resolved path, and `in_work` is
-- the file of that name below the work directory.
unfoldable pub serve_download :
    (List ℕ → String)
    → Files
    → (List Name → Readable)
    → Readable
    → String
    → String
    → List Message × Result (Unit {0})
unfolding send_file_chunks display
serve_download sha256 fs at_path in_work path id = elim (resolve_download_path fs path) [
  | err e ↦ (download_refused id (display e) ∷ [], ok tt)
  | ok full ↦ elim (at_path full) [
    | some content ↦ send_read sha256 id path content
    | none ↦ elim in_work [
      | some content ↦ send_read sha256 id path content
      | none ↦ (download_refused id ("file not found: " & path) ∷ [], ok tt)
    ]
  ]
]

-- The client's loop: it waits for a message, has failed, or has the bytes, which it then writes.
pub data Fetch : Type 0 where
  still_open : Fetch
  gave_up : GpuMeshError → Fetch
  fetched : ℕ → List ℕ → Fetch

-- What one message makes of the size that the offer announced and the bytes so far.
pub data Taken : Type 0 where
  more : ℕ → List ℕ → Taken
  last_chunk : ℕ → List ℕ → Taken
  turned_down : GpuMeshError → Taken

unfoldable pub take_message : Message → ℕ → List ℕ → Taken
take_message (file_offer offer) size bytes = more offer.size bytes
take_message (file_chunk c) size bytes =
    if c.eof then last_chunk size (bytes ++ c.bytes) else more size (bytes ++ c.bytes)
take_message (file_ack a) size bytes =
    if a.ok then more size bytes else turned_down (storage (unwrap_or a.error "download failed"))
take_message (error message) size bytes = turned_down (storage message)
take_message _ size bytes = more size bytes

-- The end of the connection ends the loop as well. A size other than the announced one is only
-- logged.
unfoldable pub download_loop : List (Result (Option Message)) → ℕ → List ℕ → Fetch
download_loop [] size bytes = still_open
download_loop (err e ∷ rest) size bytes = gave_up e
download_loop (ok none ∷ rest) size bytes = fetched size bytes
download_loop (ok (some m) ∷ rest) size bytes = elim (take_message m size bytes) [
  | more size' bytes' ↦ download_loop rest size' bytes'
  | last_chunk size' bytes' ↦ fetched size' bytes'
  | turned_down e ↦ gave_up e
]
