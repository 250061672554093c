-- ===== src/Protocol/Codec.antt =====
-- The frame codec of crates/gpumesh-protocol/src/lib.rs: a big-endian `u32` length and that many
-- bytes of JSON. serde_json is a parameter.
pub mod RoundTrip
pub mod Stream
mod Tests
use gpu_share.Base.{
  Parsed, bad, good, Json, ℕ, zero, suc, Option, none, some, List, [], ◌∷◌, ◌++◌, ◌*◌, ◌+◌, ◌/◌,
  ◌%◌, ◌^◌, ◌≡◌, length, take, drop, ltb, if◌then◌else◌,
}

abbrev pub max_frame_size : ℕ
max_frame_size = 64 * 1024 * 1024

-- `io::ErrorKind::InvalidData`: a frame over the limit, or a payload that serde_json refuses.
pub data FrameError : Type 0 where
  too_large : FrameError
  bad_payload : FrameError

-- `u32::to_be_bytes`, after the cast to `u32`.
unfoldable pub to_be_bytes : ℕ → List ℕ
to_be_bytes n = n / 2 ^ 24 % 256 ∷ n / 2 ^ 16 % 256 ∷ n / 2 ^ 8 % 256 ∷ n % 256 ∷ []

unfoldable pub from_be_bytes : List ℕ → ℕ
from_be_bytes (a ∷ b ∷ c ∷ d ∷ _) = a * 2 ^ 24 + b * 2 ^ 16 + c * 2 ^ 8 + d
from_be_bytes _ = 0

-- One call of `decode` on the buffer: the frames are taken from its front. `wait` leaves the
-- buffer as it is.
pub data Decoded (A : Type 0) : Type 0 where
  wait : Decoded A
  item : A → List ℕ → Decoded A
  failed : FrameError → List ℕ → Decoded A

module _ {A : Type 0} (json : Json A) where
  payload : Parsed A → List ℕ → Decoded A
  payload (bad e) rest = failed bad_payload rest
  payload (good msg) rest = item msg rest

  unfoldable pub decode : List ℕ → Decoded A
  unfolding payload
  decode src =
      let len = from_be_bytes (take 4 src) in
      if ltb (length src) 4
      then wait
      else if ltb max_frame_size len
      then failed too_large src
      else if ltb (length src) (4 + len)
      then wait
      else payload (json.from_slice (take len (drop 4 src))) (drop len (drop 4 src))

  frame : Parsed (List ℕ) → List ℕ → Option (List ℕ)
  frame (bad e) dst = none
  frame (good bytes) dst =
      if ltb max_frame_size (length bytes)
      then none
      else some (dst ++ (to_be_bytes (length bytes) ++ bytes))

  -- `none` is an error, which leaves `dst` alone.
  unfoldable pub encode : A → List ℕ → Option (List ℕ)
  unfolding frame
  encode msg dst = frame (json.to_vec msg) dst
