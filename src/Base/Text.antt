-- ===== src/Base/Text.antt =====
-- Texts that the program walks through are lists of code points. For an ASCII text these are its
-- bytes.
use native.Mathlib.Omega.{arith}
use Prim.Native.Nat.{ℕ, zero, suc, ◌+◌, ◌-◌, ◌/◌, ◌%◌}
use Prim.Native.Char.{Char, code}
use Prim.Native.String.{String, ◌++◌}
use Prim.Native.String.append
use mathlib.Core.Path.{◌≡◌, refl, subst, sym}
use mathlib.Core.Bool.{Bool, true, false, not, ◌&&◌, ◌||◌}
use mathlib.Core.Option.{Option, none, some}
use mathlib.Core.List.{List, [], ◌∷◌}
use gpu_share.Base.Tests.{==_refl, leb, ltb, ◌==◌, nat_eq, if◌then◌else◌}

abbrev pub codes : String → List ℕ
codes String.[] = []
codes (String.◌∷◌ c s) = code c ∷ codes s

-- The bytes that UTF-8 spends on a code point, and `len` of a text, which counts bytes.
abbrev pub len_utf8 : ℕ → ℕ
len_utf8 c = if ltb c 0x80 then 1 else if ltb c 0x800 then 2 else if ltb c 0x10000 then 3 else 4

unfoldable pub byte_len : String → ℕ
byte_len String.[] = 0
byte_len (String.◌∷◌ c s) = len_utf8 (code c) + byte_len s

abbrev pub is_ascii_alphanumeric : ℕ → Bool
is_ascii_alphanumeric c =
    (leb b'0' c && leb c b'9') || ((leb b'A' c && leb c b'Z') || (leb b'a' c && leb c b'z'))

-- `Display` of an unsigned number: its decimal digits. A number below 10 ^ fuel is printed whole.
digit : ℕ → String
digit d =
    if d == 0
    then "0"
    else if d == 1
    then "1"
    else if d == 2
    then "2"
    else if d == 3
    then "3"
    else if d == 4
    then "4"
    else if d == 5
    then "5"
    else if d == 6
    then "6"
    else if d == 7
    then "7"
    else if d == 8
    then "8"
    else "9"

show_fuel : ℕ → ℕ → String
show_fuel zero n = ""
show_fuel (suc f) n =
    let front = show_fuel f (n / 10) in if ltb n 10 then digit n else front ++ digit (n % 10)

-- Twenty digits hold every `u64`.
unfoldable pub show : ℕ → String
unfolding show_fuel digit
show n = show_fuel 20 n

-- `format!` of two parts.
infixr 60 ◌&◌
abbrev pub ◌&◌ : String → String → String
s & t = s ++ t

-- `str::strip_prefix`.
unfoldable pub strip_text : String → String → Option String
strip_text String.[] s = some s
strip_text (String.◌∷◌ c p) String.[] = none
strip_text (String.◌∷◌ c p) (String.◌∷◌ d s) =
    let rest = strip_text p s in if code c == code d then rest else none

pub strip_text_lem : (p s : String) → strip_text p (p & s) ≡ some s
unfolding strip_text
strip_text_lem String.[] s = λ i. strip_text String.[] (append.nil s i)
strip_text_lem (String.◌∷◌ c p) s =
    subst (λ (t : String). strip_text (String.◌∷◌ c p) t ≡ some s) (sym (λ i. append.cons c p s i))
      (rw (==_refl (code c)) (strip_text_lem p s))

-- `&s[..n]`, which panics where a byte offset falls into a character: none. A text that is shorter
-- is not sliced by the code.
unfoldable pub take_bytes : ℕ → String → Option String
unfolding byte_len
take_bytes n String.[] = some ""
take_bytes n (String.◌∷◌ c s) =
    let rest = take_bytes (n - len_utf8 (code c)) s in
    if n == 0
    then some ""
    else if ltb n (len_utf8 (code c))
    then none
    else elim rest [ none ↦ none | some t ↦ some (String.◌∷◌ c t) ]

-- `{:#x}`: sixteen hexadecimal digits hold every `u64`.
hex_digit : ℕ → String
unfolding digit
hex_digit d =
    if ltb d 10
    then digit d
    else if d == 10
    then "a"
    else if d == 11
    then "b"
    else if d == 12
    then "c"
    else if d == 13
    then "d"
    else if d == 14
    then "e"
    else "f"

hex_fuel : ℕ → ℕ → String
hex_fuel zero n = ""
hex_fuel (suc f) n =
    let front = hex_fuel f (n / 16) in if ltb n 16 then hex_digit n else front ++ hex_digit (n % 16)

unfoldable pub show_hex : ℕ → String
unfolding hex_fuel hex_digit digit
show_hex n = "0x" ++ hex_fuel 16 n

show_hex_works : show_hex 4106 ≡ "0x100a"
unfolding show_hex
show_hex_works = refl

show_works : show 4096 ≡ "4096"
unfolding show
show_works = refl

-- `char::is_whitespace`.
unfoldable pub is_whitespace : ℕ → Bool
is_whitespace c =
    (leb 9 c && leb c 13)
    || c == 0x20
    || c == 0x85
    || c == 0xa0
    || c == 0x1680
    || (leb 0x2000 c && leb c 0x200a)
    || c == 0x2028
    || c == 0x2029
    || c == 0x202f
    || c == 0x205f
    || c == 0x3000

trim_start : String → String
trim_start String.[] = String.[]
trim_start (String.◌∷◌ c s) =
    let rest = trim_start s in if is_whitespace (code c) then rest else String.◌∷◌ c s

keep_unless_blank : Bool → Char → String → String
keep_unless_blank true c String.[] = String.[]
keep_unless_blank _ c s = String.◌∷◌ c s

trim_end : String → String
unfolding keep_unless_blank
trim_end String.[] = String.[]
trim_end (String.◌∷◌ c s) = keep_unless_blank (is_whitespace (code c)) c (trim_end s)

unfoldable pub trim : String → String
unfolding trim_start trim_end is_whitespace
trim s = trim_end (trim_start s)

-- No character of the text is white space.
unfoldable pub no_whitespace : String → Bool
unfolding is_whitespace
no_whitespace String.[] = true
no_whitespace (String.◌∷◌ c s) = not (is_whitespace (code c)) && no_whitespace s

trim_start_lem : (s : String) → no_whitespace s ≡ true → trim_start s ≡ s
unfolding trim_start no_whitespace
trim_start_lem String.[] h = refl
trim_start_lem (String.◌∷◌ c s) h = ground arith

keep_lem : (c : Char) (s : String) → keep_unless_blank false c s ≡ String.◌∷◌ c s
unfolding keep_unless_blank
keep_lem c String.[] = refl
keep_lem c (String.◌∷◌ d s) = refl

trim_end_lem : (s : String) → no_whitespace s ≡ true → trim_end s ≡ s
unfolding trim_end no_whitespace
trim_end_lem String.[] h = refl
trim_end_lem (String.◌∷◌ c s) h =
    let dark : is_whitespace (code c) ≡ false = ground arith in
    let rest : no_whitespace s ≡ true = ground arith in
    rw (trim_end_lem s rest, dark) (keep_lem c s)

-- Trimming leaves such a text as it is.
pub trim_lem : (s : String) → no_whitespace s ≡ true → trim s ≡ s
unfolding trim
trim_lem s h = cc (trim_start_lem s h, trim_end_lem s h)

-- `eq_ignore_ascii_case`, over the code points.
unfoldable pub ascii_lower : ℕ → ℕ
ascii_lower c = if leb b'A' c && leb c b'Z' then c + 32 else c

unfoldable pub eq_ignore_ascii_case : String → String → Bool
unfolding ascii_lower
eq_ignore_ascii_case String.[] String.[] = true
eq_ignore_ascii_case (String.◌∷◌ c s) (String.◌∷◌ d t) =
    ascii_lower (code c) == ascii_lower (code d) && eq_ignore_ascii_case s t
eq_ignore_ascii_case _ _ = false

pub eq_ignore_ascii_case_refl : (s : String) → eq_ignore_ascii_case s s ≡ true
unfolding eq_ignore_ascii_case
eq_ignore_ascii_case_refl String.[] = refl
eq_ignore_ascii_case_refl (String.◌∷◌ c s) =
    rw (==_refl (ascii_lower (code c))) (eq_ignore_ascii_case_refl s)
