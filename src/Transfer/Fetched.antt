-- ===== src/Transfer/Fetched.antt =====
-- The two sides of a download of crates/gpumesh-core/src/remote.rs in sequence.
use mathlib.Core.List.{append_assoc, append-nil}
use gpu_share.Transfer.Chunks.{ends_once-send_from, ends_once}
use gpu_share.Network.Channel.{arrived}
use gpu_share.Transfer.Paths.{resolve_download_path, Name, Files}
use gpu_share.Protocol.{Message, FileChunk}
use gpu_share.Transfer.{chunk_size, chunks, send_from}
use gpu_share.Transfer.Download.{
  fetched, download_refused, gave_up, chunk_messages, Readable, take_message, download_loop,
  send_file_chunks, serve_download,
}
use gpu_share.Base.{
  take-append-drop, ◌∙◌, length-drop, drop, take, ℕ, zero, suc, String, true, false, Option, some,
  List, [], ◌∷◌, ◌++◌, ◌≡◌, refl, ap, arith, nat_eq, string_eq, ◌+◌, ◌≤◌, ◌<◌, length,
}
use gpu_share.Common.{display, storage, GpuMeshError, ok, err, Result}

abbrev pub carried : List FileChunk → List ℕ
carried [] = []
carried (c ∷ cs) = c.bytes ++ carried cs

-- Chunks of which the last one alone is marked as the end are read whole, and nothing behind them.
download_loop-chunks :
    (cs : List FileChunk) (size : ℕ) (acc : List ℕ) (later : List (Result (Option Message)))
    → ends_once cs ≡ true
    → download_loop (arrived (chunk_messages cs) ++ later) size acc
      ≡ fetched size (acc ++ carried cs)
unfolding download_loop take_message
download_loop-chunks [] size acc later h = absurd (ground arith)
download_loop-chunks (c ∷ []) size acc later h = rw (h, append-nil) refl
download_loop-chunks (c ∷ d ∷ cs) size acc later h =
    let open_ : c.eof ≡ false = ground arith in
    let rest : ends_once (d ∷ cs) ≡ true = ground arith in
    rw (open_, ← append_assoc acc c.bytes (carried (d ∷ cs)))
      (download_loop-chunks (d ∷ cs) size (acc ++ c.bytes) later rest)

carried-send_from :
    (id : String) (size fuel total offset : ℕ) (slice : List ℕ)
    → 0 < size
    → length slice ≤ fuel
    → carried (send_from id total offset (chunks size fuel slice)) ≡ slice
unfolding send_from chunks
carried-send_from id size fuel total offset [] pos_size le = refl
carried-send_from id size zero total offset (b ∷ slice) pos_size le = absurd (omega arith)
carried-send_from id size (suc fuel) total offset (b ∷ slice) pos_size le =
    ap (λ (r : List ℕ). take size (b ∷ slice) ++ r)
      (carried-send_from id size fuel total (offset + length (take size (b ∷ slice)))
        (drop size (b ∷ slice)) pos_size (omega (arith, length-drop size (b ∷ slice))))
    ∙ take-append-drop size (b ∷ slice)

-- A file that a provider sends is read by the client as it is, with its size, whatever comes behind
-- the last chunk.
pub download_loop-send_file_chunks :
    (sha256 : List ℕ → String) (id path : String) (bytes : List ℕ)
    (later : List (Result (Option Message)))
    → download_loop (arrived (send_file_chunks sha256 id path bytes) ++ later) 0 []
      ≡ fetched (length bytes) bytes
unfolding send_file_chunks download_loop take_message
download_loop-send_file_chunks sha256 id path [] later = refl
download_loop-send_file_chunks sha256 id path (b ∷ bytes) later =
    let n : ℕ = length (b ∷ bytes) in
    let cs : List FileChunk = send_from id n 0 (chunks chunk_size n (b ∷ bytes)) in
    let ends : ends_once cs ≡ true =
      ends_once-send_from id chunk_size n n 0 b bytes (omega arith) (omega arith) (omega arith) in
    download_loop-chunks cs n [] later ends
    ∙ ap (fetched n) (carried-send_from id chunk_size n n 0 (b ∷ bytes) (omega arith) (omega arith))

-- What a client makes of the answer to its request: the file at the path that the checks of the
-- provider resolve it to, if that can be read; and otherwise the reason that the checks give, the
-- provider sends and the client reports.
pub serve_download_lem :
    (sha256 : List ℕ → String) (fs : Files) (at_path : List Name → Readable) (in_work : Readable)
    (path id : String) (later : List (Result (Option Message)))
    → ((full : List Name) (bytes : List ℕ)
        → resolve_download_path fs path ≡ ok full
        → at_path full ≡ some (ok bytes)
        → download_loop (arrived (serve_download sha256 fs at_path in_work path id).0 ++ later) 0 []
          ≡ fetched (length bytes) bytes)
      × ((e : GpuMeshError)
          → resolve_download_path fs path ≡ err e
          → download_loop
              (arrived (serve_download sha256 fs at_path in_work path id).0 ++ later)
              0
              []
            ≡ gave_up (storage (display e)))
unfolding serve_download
serve_download_lem sha256 fs at_path in_work path id later = (
  λ full bytes r a.
      rw (r, a, serve_download) (download_loop-send_file_chunks sha256 id path bytes later),
  λ e r. rw (r, serve_download) (refusal (display e)),
)
  where
    refusal :
        (why : String)
        → download_loop (arrived (download_refused id why ∷ []) ++ later) 0 []
          ≡ gave_up (storage why)
    refusal why = unfold download_loop take_message in refl
