-- ===== src/Node/Status/Widths.antt =====
-- When cutting a text in crates/gpumesh-core/src/status.rs panics.
use gpu_share.Node.Status.{truncate}
use Prim.Native.Char.{Char, code}
use Prim.Native.String.append
use gpu_share.Base.{
  leb, ◌∙◌, Bool-cases, len_utf8, Option-cases, byte_len, is_some, ltb, take_bytes, ℕ, String, Bool,
  true, false, Option, none, inl, inr, ◌≡◌, refl, ap, arith, ◌==◌, nat_eq, string_eq, ◌+◌, ◌-◌, ◌<◌,
  max, ◌&&◌, ◌&◌,
}

-- A text of ASCII characters.
unfoldable pub is_ascii : String → Bool
is_ascii String.[] = true
is_ascii (String.◌∷◌ c s) = ltb (code c) 0x80 && is_ascii s

take_bytes-is_ascii : (n : ℕ) (s : String) → is_ascii s ≡ true → is_some (take_bytes n s) ≡ true
unfolding take_bytes is_ascii
take_bytes-is_ascii n String.[] h = refl
take_bytes-is_ascii n (String.◌∷◌ c s) h =
    let narrow : ltb (code c) 0x80 ≡ true = ground arith in
    let rest : is_ascii s ≡ true = ground arith in
    elim (Option-cases (take_bytes (n - 1) s)) [
      | inl q ↦ absurd (
          ground
            (arith, take_bytes-is_ascii (n - 1) s rest, ap (λ (o : Option String). is_some o) q))
      | inr (t, q) ↦ elim (Bool-cases (n == 0)) [
        | inl y ↦ rw (narrow, y) refl
        | inr m ↦ let wide : ltb n 1 ≡ false = ground arith in rw (narrow, m, wide, q) refl
      ]
    ]

-- Every offset inside a character is a panic.
take_bytes_inside :
    (p : String) (c : Char) (rest : String) (n : ℕ)
    → byte_len p < n
    → n < byte_len p + len_utf8 (code c)
    → take_bytes n (p & String.◌∷◌ c rest) ≡ none
unfolding take_bytes byte_len
take_bytes_inside String.[] c rest n lo hi =
    let nz : (n == 0) ≡ false = ground arith in
    let cut : ltb n (len_utf8 (code c)) ≡ true = ground arith in
    ap (take_bytes n) (λ i. append.nil (String.◌∷◌ c rest) i) ∙ rw (nz, cut) refl
take_bytes_inside (String.◌∷◌ d p) c rest n lo hi =
    let nz : (n == 0) ≡ false = ground arith in
    let past : ltb n (len_utf8 (code d)) ≡ false = ground arith in
    let later : take_bytes (n - len_utf8 (code d)) (p & String.◌∷◌ c rest) ≡ none =
      take_bytes_inside p c rest (n - len_utf8 (code d)) (ground arith) (ground arith) in
    ap (take_bytes n) (λ i. append.cons d p (String.◌∷◌ c rest) i) ∙ rw (nz, past, later) refl

-- A text of ASCII characters is cut without a panic at any width. A longer one panics wherever the
-- byte before the width falls inside a character.
pub truncate_lem :
    (max : ℕ)
    → ((s : String) → is_ascii s ≡ true → is_some (truncate s max) ≡ true)
      × ((p : String) (c : Char) (rest : String)
          → max < byte_len (p & String.◌∷◌ c rest)
          → byte_len p < max - 1
          → max - 1 < byte_len p + len_utf8 (code c)
          → truncate (p & String.◌∷◌ c rest) max ≡ none)
unfolding truncate
truncate_lem max = (
  λ s h. elim (Bool-cases (leb (byte_len s) max)) [
    | inl y ↦ rw (y, truncate) refl
    | inr n ↦ elim (Option-cases (take_bytes (max - 1) s)) [
      | inl q ↦ absurd (
          ground
            (arith, take_bytes-is_ascii (max - 1) s h, ap (λ (o : Option String). is_some o) q))
      | inr (t, q) ↦ rw (n, q, truncate) refl
    ]
  ],
  λ p c rest long lo hi.
      let big : leb (byte_len (p & String.◌∷◌ c rest)) max ≡ false = ground arith in
      rw (big, take_bytes_inside p c rest (max - 1) lo hi, truncate) refl,
)
