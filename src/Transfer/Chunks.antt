-- ===== src/Transfer/Chunks.antt =====
-- The chunks of an upload of crates/gpumesh-core/src/remote.rs, applied in order.
use mathlib.Core.List.{append_assoc, append-nil}
use gpu_share.Protocol.{FileChunk}
use gpu_share.Base.{
  is_empty, if◌then◌else◌, take-append-drop, zero, length-append, length-drop, length-take, leb,
  take, drop, suc, sym, ◌+◌, ◌≤◌, ◌<◌, ==_refl, ◌∙◌, replicate, ℕ, String, Bool, true, false, List,
  [], ◌∷◌, ◌++◌, ◌≡◌, refl, ap, arith, ◌==◌, nat_eq, string_eq, ◌-◌, ◌&&◌, not, length,
}
use gpu_share.Transfer.{chunk_size, upload_chunks, chunks, send_from, file_chunk_of, apply_chunk}

-- The buffer after a sequence of chunks.
abbrev pub apply_all : List ℕ → List FileChunk → List ℕ
apply_all buf [] = buf
apply_all buf (c ∷ cs) = apply_all (apply_chunk buf c) cs

-- Exactly the last chunk of a non-empty sequence ends the file.
abbrev pub ends_once : List FileChunk → Bool
ends_once [] = false
ends_once (c ∷ []) = c.eof
ends_once (c ∷ d ∷ cs) = not c.eof && ends_once (d ∷ cs)

apply_chunk_end :
    (id : String) (buf bytes : List ℕ) (eof : Bool)
    → apply_chunk buf (file_chunk_of id (length buf) bytes eof) ≡ buf ++ bytes
unfolding apply_chunk
apply_chunk_end id buf bytes eof =
    let none_missing : length buf - length buf ≡ 0 = omega arith in
    let whole : buf ++ replicate (length buf - length buf) 0 ≡ buf =
      ap (λ (n : ℕ). buf ++ replicate n 0) none_missing ∙ append-nil buf in
    let same : (length buf == length buf) ≡ true = ==_refl (length buf) in rw (whole, same) refl

-- What is left after the first chunk is shorter, when chunks are not empty.
length-drop_lt :
    (size fuel b : ℕ) (slice : List ℕ)
    → 0 < size
    → length (b ∷ slice) ≤ suc fuel
    → length (drop size (b ∷ slice)) ≤ fuel
length-drop_lt size fuel b slice pos_size le = omega (arith, length-drop size (b ∷ slice))

apply_all-send_from :
    (id : String) (size fuel total offset : ℕ) (buf slice : List ℕ)
    → 0 < size
    → length slice ≤ fuel
    → offset ≡ length buf
    → apply_all buf (send_from id total offset (chunks size fuel slice)) ≡ buf ++ slice
unfolding send_from chunks
apply_all-send_from id size fuel total offset buf [] pos_size le at = sym (append-nil buf)
apply_all-send_from id size zero total offset buf (b ∷ slice) pos_size le at = absurd (omega arith)
apply_all-send_from id size (suc fuel) total offset buf (b ∷ slice) pos_size le at =
    let c : List ℕ = take size (b ∷ slice) in
    let d : List ℕ = drop size (b ∷ slice) in
    let next : ℕ = offset + length c in
    let eof : Bool = leb total next in
    let first : apply_chunk buf (file_chunk_of id offset c eof) ≡ buf ++ c =
      ap (λ (o : ℕ). apply_chunk buf (file_chunk_of id o c eof)) at
      ∙ apply_chunk_end id buf c eof in
    ap (λ (r : List ℕ). apply_all r (send_from id total next (chunks size fuel d))) first
    ∙ apply_all-send_from id size fuel total next (buf ++ c) d pos_size
        (length-drop_lt size fuel b slice pos_size le) (omega (arith, length-append buf c))
    ∙ append_assoc buf c d
    ∙ ap (λ (r : List ℕ). buf ++ r) (take-append-drop size (b ∷ slice))

ends_cons :
    (c : FileChunk) (cs : List FileChunk)
    → c.eof ≡ false
    → ends_once cs ≡ true
    → ends_once (c ∷ cs) ≡ true
ends_cons c [] more h = cc
ends_cons c (d ∷ cs) more h = ground (arith, more, h)

pub ends_once-send_from :
    (id : String) (size fuel total offset b : ℕ) (slice : List ℕ)
    → 0 < size
    → length (b ∷ slice) ≤ fuel
    → total ≡ offset + length (b ∷ slice)
    → ends_once (send_from id total offset (chunks size fuel (b ∷ slice))) ≡ true
unfolding send_from chunks
ends_once-send_from id size zero total offset b slice pos_size le at = absurd (omega arith)
ends_once-send_from id size (suc fuel) total offset b slice pos_size le at =
    go (drop size (b ∷ slice)) refl (length-drop_lt size fuel b slice pos_size le) (λ x d le' left.
      ends_once-send_from id size fuel total (offset + length (take size (b ∷ slice))) x d pos_size
        le' left)
  where
    c : List ℕ
    c = take size (b ∷ slice)

    parts : length c + length (drop size (b ∷ slice)) ≡ length (b ∷ slice)
    parts = omega (arith, length-take size (b ∷ slice), length-drop size (b ∷ slice))

    go :
        (d : List ℕ)
        → drop size (b ∷ slice) ≡ d
        → length d ≤ fuel
        → ((x : ℕ) (d : List ℕ)
            → length (x ∷ d) ≤ fuel
            → total ≡ offset + length c + length (x ∷ d)
            → ends_once (send_from id total (offset + length c) (chunks size fuel (x ∷ d))) ≡ true)
        → ends_once (
            file_chunk_of id offset c (leb total (offset + length c))
            ∷ send_from id total (offset + length c) (chunks size fuel d))
          ≡ true
    go [] e le' ih =
        let whole : total ≡ offset + length c =
          omega (arith, parts, ap (λ (r : List ℕ). length r) e) in
        ground (arith, whole)
    go (x ∷ d) e le' ih =
        let left : total ≡ offset + length c + length (x ∷ d) =
          omega (arith, parts, ap (λ (r : List ℕ). length r) e) in
        let more : leb total (offset + length c) ≡ false = ground arith in
        ends_cons (file_chunk_of id offset c (leb total (offset + length c)))
          (send_from id total (offset + length c) (chunks size fuel (x ∷ d))) more (ih x d le' left)

-- A file is split into chunks from a byte on that lies in it or at its end. If what the receiver has
-- is the file up to that byte, it ends with exactly the file when it has applied the chunks in their
-- order, and the last chunk, and no other, is marked as the end.
pub apply_all-upload_chunks :
    (id : String) (bytes : List ℕ) (start : ℕ)
    → start ≤ length bytes
    → (apply_all (take start bytes) (upload_chunks id bytes start) ≡ bytes)
      × (ends_once (upload_chunks id bytes start) ≡ true)
unfolding upload_chunks
apply_all-upload_chunks id bytes start le = go (drop start bytes) refl
  where
    had : List ℕ
    had = take start bytes

    at : start ≡ length had
    at = omega (arith, length-take start bytes)

    go :
        (slice : List ℕ)
        → drop start bytes ≡ slice
        → (apply_all had (
              if is_empty slice
              then file_chunk_of id start [] true ∷ []
              else send_from id (length bytes) start (chunks chunk_size (length slice) slice))
            ≡ bytes)
          × (ends_once (
                if is_empty slice
                then file_chunk_of id start [] true ∷ []
                else send_from id (length bytes) start (chunks chunk_size (length slice) slice))
              ≡ true)
    go [] e = (
      ap (λ (o : ℕ). apply_chunk had (file_chunk_of id o [] true)) at
          ∙ apply_chunk_end id had [] true
          ∙ ap (λ (r : List ℕ). had ++ r) (sym e)
          ∙ take-append-drop start bytes,
      refl,
    )
    go (b ∷ slice) e = (
      apply_all-send_from id chunk_size (suc (length slice)) (length bytes) start had (b ∷ slice)
            (omega arith) (omega arith) at
          ∙ ap (λ (r : List ℕ). had ++ r) (sym e)
          ∙ take-append-drop start bytes,
      ends_once-send_from id chunk_size (suc (length slice)) (length bytes) start b slice
          (omega arith) (omega arith)
          (omega (arith, length-drop start bytes, ap (λ (r : List ℕ). length r) e)),
    )
