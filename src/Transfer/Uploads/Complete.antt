-- ===== src/Transfer/Uploads/Complete.antt =====
-- The chunks of one transfer at the provider of crates/gpumesh-core/src/remote.rs, up to the last
-- one.
use gpu_share.Transfer.Chunks.{apply_all, ends_once}
use mathlib.Core.Path.{subst}
use gpu_share.Transfer.{apply_chunk}
use gpu_share.Protocol.{file_ack, FileOffer, FileChunk}
use gpu_share.Base.{
  all, nat_eq, list_eq, ◌∙◌, codes, ==_ne, length-append, ℕ, String, Bool, true, false, none, some,
  List, [], ◌∷◌, ◌≡◌, ◌≢◌, refl, ap, sym, arith, if◌then◌else◌, ◌==◌, nat_eq, string_eq, ◌+◌,
  length,
}
use gpu_share.Common.{ok}
use gpu_share.Base.Map
use gpu_share.Base.Map.{Map}
use gpu_share.Transfer.Paths.{upload_dest, Name, Files}
use gpu_share.Transfer.Uploads.{
  handle_chunks, write_partial, mismatch, hash_ok, finish_upload, Handled, handle_file_chunk,
  partial_of, UploadState, Sha256,
}

-- The bytes of all names of a path.
path_size : List Name → ℕ
path_size [] = 0
path_size (p ∷ ps) = length p + path_size ps

path_size-partial_of : (p : List Name) → path_size (partial_of p) ≡ path_size p + 8
unfolding path_size partial_of
path_size-partial_of [] = refl
path_size-partial_of (p ∷ []) = omega (arith, length-append p (codes ".partial"))
path_size-partial_of (p ∷ q ∷ ps) = omega (arith, path_size-partial_of (q ∷ ps))

-- A file is not its own partial file.
partial_of-ne : (p : List Name) → partial_of p ≢ p
partial_of-ne p e = omega (arith, path_size-partial_of p, ap path_size e)

-- The uploads in progress, and the chunks, of one transfer.
abbrev pub same_transfer : String → FileChunk → Bool
same_transfer tid c = c.transfer_id == tid

module _ (fs : Files) (sha : Sha256) (tid : String) (offer : FileOffer) (dest : List Name)
    (good_dest : upload_dest fs offer.path tid ≡ ok dest) where
  handle_more :
      (c : FileChunk) (st : UploadState) (buf : List ℕ)
      → c.transfer_id ≡ tid
      → c.eof ≡ false
      → Map.get tid st.uploads ≡ some (offer, buf)
      → (st' : UploadState) × (handle_file_chunk fs sha c st ≡ ok ([], st'))
        × (Map.get tid st'.uploads ≡ some (offer, apply_chunk buf c))
  unfolding handle_file_chunk
  handle_more c st buf id more found =
      let found' : Map.get c.transfer_id st.uploads ≡ some (offer, buf) =
        subst (λ (x : String). Map.get x st.uploads ≡ some (offer, buf)) (sym id) found in
      (
        record {
          uploads = Map.insert c.transfer_id (offer, apply_chunk buf c) st.uploads;
          disk =
              write_partial (upload_dest fs offer.path c.transfer_id) (apply_chunk buf c) st.disk;
        },
        rw (found', more, handle_file_chunk) refl,
        subst
            (λ (x : String).
              Map.get x (Map.insert c.transfer_id (offer, apply_chunk buf c) st.uploads)
              ≡ some (offer, apply_chunk buf c))
            id (Map.get-insert_self c.transfer_id (offer, apply_chunk buf c) st.uploads),
      )

  -- The reply to the last chunk, the upload's entry and the stored file.
  abbrev pub Finished : List ℕ → Handled → Type 0
  Finished bytes r =
      (st' : UploadState) × (r
        ≡ ok (
          file_ack (record {
            transfer_id = tid;
            ok = hash_ok sha offer bytes;
            error = mismatch (hash_ok sha offer bytes) offer.sha256_hex (sha bytes);
            resume_from = none;
          })
              ∷ [],
          st',
        ))
      × (Map.get tid st'.uploads ≡ none)
      × (Map.get dest st'.disk ≡ (if hash_ok sha offer bytes then some bytes else none))
      × (Map.get (partial_of dest) st'.disk ≡ none)

  stored_lem :
      (good : Bool) (bytes : List ℕ) (disk : Map (List Name) (List ℕ))
      → Map.get dest (
          Map.remove (partial_of dest) (
            if good
            then Map.insert dest bytes disk
            else Map.remove dest (Map.insert dest bytes disk)))
        ≡ (if good then some bytes else none)
  stored_lem good bytes disk =
      let apart : (partial_of dest == dest) ≡ false =
        ==_ne (partial_of dest) dest (partial_of-ne dest) in
      let kept : Map (List Name) (List ℕ) =
        if good then Map.insert dest bytes disk else Map.remove dest (Map.insert dest bytes disk) in
      Map.get-remove (partial_of dest) dest kept
      ∙ ap (λ (b : Bool). if b then none else Map.get dest kept) apart
      ∙ go good
    where
      go :
          (g : Bool)
          → Map.get dest (
              if g
              then Map.insert dest bytes disk
              else Map.remove dest (Map.insert dest bytes disk))
            ≡ (if g then some bytes else none)
      go true = Map.get-insert_self dest bytes disk
      go false = Map.get-remove_self dest (Map.insert dest bytes disk)

  finish_lem :
      (bytes : List ℕ) (st : UploadState)
      → Map.get tid st.uploads ≡ none
      → Finished bytes (finish_upload fs sha tid offer bytes st)
  unfolding finish_upload
  finish_lem bytes st gone =
      rw (good_dest, finish_upload)
        (
          record st {
            disk = Map.remove (partial_of dest) (
                if hash_ok sha offer bytes
                then Map.insert dest bytes st.disk
                else Map.remove dest (Map.insert dest bytes st.disk));
          },
          refl,
          gone,
          stored_lem (hash_ok sha offer bytes) bytes st.disk,
          Map.get-remove_self (partial_of dest) _,
        )

  handle_last :
      (c : FileChunk) (st : UploadState) (buf : List ℕ)
      → c.transfer_id ≡ tid
      → c.eof ≡ true
      → Map.get tid st.uploads ≡ some (offer, buf)
      → Finished (apply_chunk buf c) (handle_file_chunk fs sha c st)
  unfolding handle_file_chunk
  handle_last c st buf id last found =
      let found' : Map.get c.transfer_id st.uploads ≡ some (offer, buf) =
        subst (λ (x : String). Map.get x st.uploads ≡ some (offer, buf)) (sym id) found in
      let done_with : List ℕ = apply_chunk buf c in
      let disk : Map (List Name) (List ℕ) =
        write_partial (upload_dest fs offer.path c.transfer_id) done_with st.disk in
      let rest : UploadState = record {
        uploads = Map.remove c.transfer_id st.uploads;
        disk = disk;
      } in
      let gone : Map.get tid rest.uploads ≡ none =
        subst (λ (x : String). Map.get x (Map.remove c.transfer_id st.uploads) ≡ none) id
          (Map.get-remove_self c.transfer_id st.uploads) in
      let ended : Handled = finish_upload fs sha c.transfer_id offer done_with rest in
      let kept_open : Handled = ok (
        [],
        record { uploads = Map.insert c.transfer_id (offer, done_with) st.uploads; disk = disk },
      ) in
      let opened : handle_file_chunk fs sha c st ≡ (if c.eof then ended else kept_open) =
        rw (found', handle_file_chunk) refl in
      let step : handle_file_chunk fs sha c st ≡ ended =
        opened ∙ ap (λ (b : Bool). if b then ended else kept_open) last in
      subst (λ (r : Handled). Finished done_with r) (sym step)
        (subst (λ (x : String). Finished done_with (finish_upload fs sha x offer done_with rest))
          (sym id) (finish_lem done_with rest gone))

  -- Chunks of one transfer of which the last one alone ends it.
  pub handle_all :
      (cs : List FileChunk) (st : UploadState) (buf : List ℕ)
      → all (same_transfer tid) cs ≡ true
      → ends_once cs ≡ true
      → Map.get tid st.uploads ≡ some (offer, buf)
      → Finished (apply_all buf cs) (handle_chunks fs sha cs st)
  unfolding handle_chunks
  handle_all [] st buf same once found = absurd (ground arith)
  handle_all (c ∷ []) st buf same once found =
      let id : c.transfer_id ≡ tid = (string_eq.beq_iff c.transfer_id tid).0 (ground arith) in
      let (st', step, gone, stored, no_part) = handle_last c st buf id once found in
      (st', rw step refl, gone, stored, no_part)
  handle_all (c ∷ d ∷ cs) st buf same once found =
      let id : c.transfer_id ≡ tid = (string_eq.beq_iff c.transfer_id tid).0 (ground arith) in
      let (st1, step, found1) = handle_more c st buf id (ground arith) found in
      let (st2, steps, gone, stored, no_part) =
        handle_all (d ∷ cs) st1 (apply_chunk buf c) (ground arith) (ground arith) found1 in
      (st2, rw step (rw steps refl), gone, stored, no_part)
