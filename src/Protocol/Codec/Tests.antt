-- ===== src/Protocol/Codec/Tests.antt =====
-- Runs of the codec over a toy serialiser: numbers below 256 as one byte, and no other.
use gpu_share.Base.{
  bad, Json, good, Parsed, ℕ, some, List, [], ◌∷◌, ◌++◌, ◌+◌, ◌≤◌, ◌≡◌, refl, arith, ltb,
  if◌then◌else◌, length,
}
use gpu_share.Protocol.Codec.{to_be_bytes, from_be_bytes, max_frame_size, item, decode, encode}
use gpu_share.Protocol.Codec.RoundTrip.{decode-encode}

byte_of : ℕ → Parsed (List ℕ)
byte_of n = if ltb n 256 then good (n ∷ []) else bad "no byte"

of_byte : List ℕ → Parsed ℕ
of_byte (n ∷ []) = good n
of_byte _ = bad "no number"

of_byte-byte_of : (n : ℕ) (bytes : List ℕ) → byte_of n ≡ good bytes → of_byte bytes ≡ good n
unfolding byte_of of_byte
of_byte-byte_of n bytes h = ground arith

abbrev toy : Json ℕ
unfolding byte_of of_byte
toy = record { to_vec = byte_of; from_slice = of_byte; from_slice-to_vec = of_byte-byte_of }

encode-toy : encode toy 7 (9 ∷ []) ≡ some (9 ∷ 0 ∷ 0 ∷ 0 ∷ 1 ∷ 7 ∷ [])
unfolding encode to_be_bytes toy
encode-toy = refl

decode-encode_example :
    (f : List ℕ) × (9 ∷ 0 ∷ 0 ∷ 0 ∷ 1 ∷ 7 ∷ [] ≡ (9 ∷ []) ++ f)
    × (length f ≤ max_frame_size + 4)
    × (decode toy (f ++ 5 ∷ []) ≡ item 7 (5 ∷ []))
decode-encode_example =
    decode-encode toy 7 (9 ∷ []) (9 ∷ 0 ∷ 0 ∷ 0 ∷ 1 ∷ 7 ∷ []) (5 ∷ []) encode-toy

decode-toy : decode toy (0 ∷ 0 ∷ 0 ∷ 1 ∷ 7 ∷ []) ≡ item 7 []
unfolding decode from_be_bytes toy
decode-toy = refl

encode_alone : encode toy 7 [] ≡ some (0 ∷ 0 ∷ 0 ∷ 1 ∷ 7 ∷ [])
unfolding encode to_be_bytes toy
encode_alone = refl
