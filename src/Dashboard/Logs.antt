-- ===== src/Dashboard/Logs.antt =====
-- Reading logs in pieces: `read_log_chunk` of crates/gpumesh-control/src/local.rs.
use gpu_share.Base.{
  drop-append_self, ◌∙◌, drop, ltb, length-append, ℕ, String, Bool, true, false, Option, none, some,
  List, [], ◌∷◌, ◌++◌, ◌≡◌, refl, ap, arith, if◌then◌else◌, nat_eq, string_eq, ◌-◌, ◌*◌, ◌≤◌, ◌<◌,
  min, length,
}

abbrev pub log_tail_bytes : ℕ
log_tail_bytes = 256 * 1024

-- The bytes, which `from_utf8_lossy` then makes a text of.
pub record LogChunk : Type 0 where
  pub offset : ℕ
  pub size : ℕ
  pub truncated : Bool
  pub text : List ℕ
  pub path : String

-- Where the piece starts, and whether something before it is left out.
unfoldable pub chunk_start : ℕ → Option ℕ → ℕ × Bool
chunk_start size (some off) = (min off size, false)
chunk_start size none =
    if ltb log_tail_bytes size then (size - log_tail_bytes, true) else (0, false)

-- `bytes` is the file, or nothing where it cannot be read.
unfoldable pub read_log_chunk : String → List ℕ → Option ℕ → LogChunk
unfolding chunk_start
read_log_chunk path bytes offset =
    let (start, cut) = chunk_start (length bytes) offset in
    record {
      offset = length bytes;
      size = length bytes;
      truncated = cut;
      text = drop start bytes;
      path = path;
    }

-- A reader that asks again from the offset that it was given: what it has after a sequence of
-- additions to the file.
unfoldable pub follow_log : String → List ℕ → ℕ → List (List ℕ) → List ℕ
unfolding read_log_chunk
follow_log path bytes offset [] = []
follow_log path bytes offset (added ∷ later) =
    let chunk = read_log_chunk path (bytes ++ added) (some offset) in
    chunk.text ++ follow_log path (bytes ++ added) chunk.offset later

abbrev pub joined : List (List ℕ) → List ℕ
joined [] = []
joined (a ∷ as_) = a ++ joined as_

follow_log_lem :
    (path : String) (bytes : List ℕ) (additions : List (List ℕ))
    → follow_log path bytes (length bytes) additions ≡ joined additions
unfolding follow_log read_log_chunk chunk_start
follow_log_lem path bytes [] = refl
follow_log_lem path bytes (added ∷ later) =
    let le : min (length bytes) (length (bytes ++ added)) ≡ length bytes =
      omega (arith, length-append bytes added) in
    ap
      (λ (n : ℕ).
        drop n (bytes ++ added) ++ follow_log path (bytes ++ added) (length (bytes ++ added)) later)
      le
    ∙ ap (λ (r : List ℕ). r ++ follow_log path (bytes ++ added) (length (bytes ++ added)) later)
        (drop-append_self bytes added)
    ∙ ap (λ (r : List ℕ). added ++ r) (follow_log_lem path (bytes ++ added) later)

-- A reader that starts without an offset and then asks again from each offset that it is given, has
-- every byte of the file once and in order, if the file had no more than 256 KiB at the start; and
-- if it had more, all but the bytes before the last 256 KiB.
pub read_log_chunk-follow_log :
    (path : String) (bytes : List ℕ) (additions : List (List ℕ))
    → (length bytes ≤ log_tail_bytes
        → (read_log_chunk path bytes none).text
            ++ follow_log path bytes (read_log_chunk path bytes none).offset additions
          ≡ bytes ++ joined additions)
      × (log_tail_bytes < length bytes
          → (read_log_chunk path bytes none).text
              ++ follow_log path bytes (read_log_chunk path bytes none).offset additions
            ≡ drop (length bytes - log_tail_bytes) bytes ++ joined additions)
unfolding read_log_chunk chunk_start
read_log_chunk-follow_log path bytes additions = (
  λ h.
      let small : ltb log_tail_bytes (length bytes) ≡ false = ground arith in
      ap (λ (b : Bool). drop (pick b).0 bytes ++ follow_log path bytes (length bytes) additions)
        small
      ∙ ap (λ (r : List ℕ). bytes ++ r) (follow_log_lem path bytes additions),
  λ h.
      let large : ltb log_tail_bytes (length bytes) ≡ true = ground arith in
      ap (λ (b : Bool). drop (pick b).0 bytes ++ follow_log path bytes (length bytes) additions)
        large
      ∙ ap (λ (r : List ℕ). drop (length bytes - log_tail_bytes) bytes ++ r)
          (follow_log_lem path bytes additions),
)
  where
    pick : Bool → ℕ × Bool
    pick b = if b then (length bytes - log_tail_bytes, true) else (0, false)
