-- ===== src/Protocol/Codec/Stream.antt =====
-- The decoder of crates/gpumesh-protocol/src/lib.rs on a buffer that fills up.
use mathlib.Core.List.{append-nil}
use mathlib.Core.Path.{subst}
use gpu_share.Protocol.Codec.RoundTrip.{decode-encode}
use gpu_share.Base.{
  good, bad, Parsed, sym, ◌∙◌, take-take, inr, length-take, inl, ltb, Bool-cases, ap, ◌<◌, [], ℕ,
  some, List, ◌++◌, ◌+◌, ◌≤◌, ◌≡◌, length, take, drop, arith, length-append, length-drop,
  take-append, drop-append,
}
use gpu_share.Protocol.Codec.{
  wait, encode, Json, from_be_bytes, max_frame_size, item, payload, decode,
}

module _ {A : Type 0} (json : Json A) where
  abbrev announced : List ℕ → ℕ
  announced src = from_be_bytes (take 4 src)

  -- A message is taken only from a buffer that holds its whole frame, within the limit.
  item_whole :
      (src rest : List ℕ) (msg : A)
      → decode json src ≡ item msg rest
      → (4 + announced src ≤ length src)
        × (announced src ≤ max_frame_size)
        × (payload json
              (json.from_slice (take (announced src) (drop 4 src)))
              (drop (announced src) (drop 4 src))
            ≡ item msg rest)
  unfolding decode
  item_whole src rest msg h = ground arith

  payload_more :
      (o : Parsed A) (rest rest' more : List ℕ) (msg : A)
      → payload json o rest ≡ item msg rest'
      → payload json o (rest ++ more) ≡ item msg (rest' ++ more)
  unfolding payload
  payload_more (bad e) rest rest' more msg h = cc
  payload_more (good a) rest rest' more msg h = ground arith

  -- Bytes that arrive behind a frame change neither the message nor what is left of the buffer,
  -- to which they are added.
  pub decode_more :
      (src more rest : List ℕ) (msg : A)
      → decode json src ≡ item msg rest
      → decode json (src ++ more) ≡ item msg (rest ++ more)
  unfolding decode
  decode_more src more rest msg h =
      let (whole, small, found) = item_whole src rest msg h in
      rw (take-append 4 src more (omega arith), drop-append 4 src more (omega arith))
        (rw
          (
            take-append (announced src) (drop 4 src) more (omega (arith, length-drop 4 src)),
            drop-append (announced src) (drop 4 src) more (omega (arith, length-drop 4 src)),
          )
          (ground (
            arith,
            length-append src more,
            payload_more (json.from_slice (take (announced src) (drop 4 src)))
                (drop (announced src) (drop 4 src)) rest more msg found,
          )))

  payload_rest :
      (o : Parsed A) (rest rest' : List ℕ) (msg : A)
      → payload json o rest ≡ item msg rest'
      → rest ≡ rest'
  unfolding payload
  payload_rest (bad e) rest rest' msg h = cc
  payload_rest (good a) rest rest' msg h = cc

  -- Of a buffer that is one frame, no shorter part is taken for a frame.
  wait_part :
      (src : List ℕ) (msg : A) (k : ℕ)
      → decode json src ≡ item msg []
      → k < length src
      → decode json (take k src) ≡ wait
  unfolding decode
  wait_part src msg k h short =
      let (whole, small, found) = item_whole src [] msg h in
      let spent : length (drop (announced src) (drop 4 src)) ≡ 0 = ap length (
        payload_rest (json.from_slice (take (announced src) (drop 4 src)))
          (drop (announced src) (drop 4 src)) [] msg found) in
      elim (Bool-cases (ltb k 4)) [
        | inl few ↦ ground (arith, length-take k src)
        | inr enough ↦ rw (take-take 4 k src (ground arith)) (
            ground (
              arith,
              length-take k src,
              length-drop (announced src) (drop 4 src),
              length-drop 4 src,
            ))
      ]

  -- The decoder waits, and keeps what it has, until the last byte of a frame is there.
  pub decode_part :
      (msg : A) (f : List ℕ) (k : ℕ)
      → encode json msg [] ≡ some f
      → k < length f
      → decode json (take k f) ≡ wait
  decode_part msg f k h short =
      let (g, e, _, d) = decode-encode json msg [] f [] h in
      wait_part f msg k (subst (λ g. decode json g ≡ item msg []) (append-nil g ∙ sym e) d) short
