-- ===== src/Protocol/Codec/RoundTrip.antt =====
-- The encoder and the decoder of crates/gpumesh-protocol/src/lib.rs in sequence.
use mathlib.Core.List.{append_assoc}
use gpu_share.Base.{
  ◌^◌, ◌<◌, Parsed-cases, good, Json, ℕ, some, List, ◌++◌, ◌+◌, ◌≤◌, ◌≡◌, refl, length, take, drop,
  ltb, arith, length-append, take-append_self, drop-append_self, inl, inr, Bool-cases, false,
}
use gpu_share.Protocol.Codec.{to_be_bytes, from_be_bytes, max_frame_size, item, decode, encode}

-- The length of a frame below the limit survives the four bytes.
pub from_be_bytes-to_be_bytes :
    (n : ℕ) (rest : List ℕ)
    → n ≤ max_frame_size
    → from_be_bytes (take 4 (to_be_bytes n ++ rest)) ≡ n
unfolding from_be_bytes to_be_bytes
from_be_bytes-to_be_bytes n rest h = omega arith

pub from_be_bytes_self : (n : ℕ) → n < 2 ^ 32 → from_be_bytes (to_be_bytes n) ≡ n
unfolding from_be_bytes to_be_bytes
from_be_bytes_self n h = omega arith

pub length-to_be_bytes : (n : ℕ) → length (to_be_bytes n) ≡ 4
unfolding to_be_bytes
length-to_be_bytes n = refl

drop-to_be_bytes : (n : ℕ) (rest : List ℕ) → drop 4 (to_be_bytes n ++ rest) ≡ rest
unfolding to_be_bytes
drop-to_be_bytes n rest = refl

module _ {A : Type 0} (json : Json A) where
  -- A whole frame in front of the buffer is taken off, and its payload is parsed.
  decode_frame :
      (bytes rest : List ℕ) (msg : A)
      → length bytes ≤ max_frame_size
      → json.from_slice bytes ≡ good msg
      → decode json (to_be_bytes (length bytes) ++ (bytes ++ rest)) ≡ item msg rest
  unfolding decode
  decode_frame bytes rest msg small parsed =
      rw (from_be_bytes-to_be_bytes (length bytes) (bytes ++ rest) small) (
        rw (drop-to_be_bytes (length bytes) (bytes ++ rest)) (
          rw (take-append_self bytes rest, drop-append_self bytes rest, parsed) ground
            (
              arith,
              length-append (to_be_bytes (length bytes)) (bytes ++ rest),
              length-append bytes rest,
              length-to_be_bytes (length bytes),
            )))

  -- A frame is written behind what the buffer holds, it is at most four bytes longer than the
  -- limit, and the decoder gives the message back and leaves all that follows the frame.
  pub decode-encode :
      (msg : A) (dst out rest : List ℕ)
      → encode json msg dst ≡ some out
      → (f : List ℕ) × (out ≡ dst ++ f)
        × (length f ≤ max_frame_size + 4)
        × (decode json (f ++ rest) ≡ item msg rest)
  unfolding encode
  decode-encode msg dst out rest h = elim (Parsed-cases (json.to_vec msg)) [
    | inl e ↦ absurd (ground arith)
    | inr p ↦ elim (Bool-cases (ltb max_frame_size (length p.0))) [
      | inl big ↦ absurd (ground arith)
      | inr small ↦ (
        to_be_bytes (length p.0) ++ p.0,
        ground arith,
        omega (
          arith,
          length-append (to_be_bytes (length p.0)) p.0,
          length-to_be_bytes (length p.0),
          fits p.0 small,
        ),
        rw (append_assoc)
            (decode_frame p.0 rest msg (fits p.0 small) (json.from_slice-to_vec msg p.0 p.1)),
      )
    ]
  ]
    where
      fits : (b : List ℕ) → ltb max_frame_size (length b) ≡ false → length b ≤ max_frame_size
      fits b e = ground arith
