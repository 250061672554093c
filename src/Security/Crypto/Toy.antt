-- ===== src/Security/Crypto/Toy.antt =====
-- A toy instance of the cryptography, with which the tests run: texts in unary, a key of 32 equal
-- bytes, and 64 of the same as its signature of any message.
use Prim.Native.Char.{code}
use gpu_share.Security.Crypto.{from_seed, NodeIdentity, Crypto}
use gpu_share.Base.{
  bad, good, Parsed, refl, false, true, length-replicate, ap, ==_refl, arith, if◌then◌else◌, ◌≡◌,
  ◌+◌, Bool, ℕ, zero, suc, List, [], ◌∷◌, String, no_whitespace, replicate, ◌==◌, nat_eq,
}

-- A number is as many strokes, and a dot.
pub stroke : ℕ → String → String
stroke zero s = String.◌∷◌ "." s
stroke (suc n) s = String.◌∷◌ "1" (stroke n s)

pub unary : List ℕ → String
unfolding stroke
unary [] = ""
unary (n ∷ ns) = stroke n (unary ns)

push_digit : Bool → Parsed (List ℕ) → Parsed (List ℕ)
push_digit true (good (n ∷ ns)) = good (suc n ∷ ns)
push_digit false (good ns) = good (0 ∷ ns)
push_digit _ r = r

pub of_unary : String → Parsed (List ℕ)
unfolding push_digit
of_unary String.[] = good []
of_unary (String.◌∷◌ c s) = push_digit (code c == b'1') (of_unary s)

of_unary-stroke :
    (n : ℕ) (s : String) (ns : List ℕ)
    → of_unary s ≡ good ns
    → of_unary (stroke n s) ≡ good (n ∷ ns)
unfolding of_unary stroke push_digit
of_unary-stroke zero s ns h = ap (push_digit false) h
of_unary-stroke (suc n) s ns h = ap (push_digit true) (of_unary-stroke n s ns h)

pub of_unary-unary : (ns : List ℕ) → of_unary (unary ns) ≡ good ns
unfolding unary of_unary
of_unary-unary [] = refl
of_unary-unary (n ∷ ns) = of_unary-stroke n (unary ns) ns (of_unary-unary ns)

stroke_dark : (n : ℕ) (s : String) → no_whitespace s ≡ true → no_whitespace (stroke n s) ≡ true
unfolding stroke no_whitespace
stroke_dark zero s h = h
stroke_dark (suc n) s h = stroke_dark n s h

pub unary_dark : (ns : List ℕ) → no_whitespace (unary ns) ≡ true
unfolding unary no_whitespace
unary_dark [] = refl
unary_dark (n ∷ ns) = stroke_dark n (unary ns) (unary_dark ns)

abbrev pub checksum : List ℕ → ℕ
checksum [] = 0
checksum (b ∷ bs) = b + checksum bs

pub toy_verify : List ℕ → List ℕ → Parsed (Unit {0})
toy_verify (k ∷ _) (s ∷ _) = if s == k then good tt else bad "signature error"
toy_verify _ _ = bad "signature error"

pub toy_verify-sign : (k : ℕ) → toy_verify (replicate 32 k) (replicate 64 k) ≡ good tt
unfolding toy_verify
toy_verify-sign k = ground (arith, ==_refl k)

unfoldable pub toy_crypto : Crypto
unfolding unary of_unary toy_verify no_whitespace
toy_crypto = record {
  hex_encode = unary;
  hex_decode = of_unary;
  b64_encode = unary;
  b64_decode = of_unary;
  sha256 = λ b. b;
  verifying_key = λ seed. replicate 32 (checksum seed);
  sign = λ seed m. replicate 64 (checksum seed);
  key_from_bytes = good;
  verify = λ vk m s. toy_verify vk s;
  hex_decode-encode = of_unary-unary;
  b64_decode-encode = of_unary-unary;
  b64_decode_empty = refl;
  b64_no_whitespace = unary_dark;
  length-verifying_key = λ seed. length-replicate 32 (checksum seed);
  length-sign = λ seed m. length-replicate 64 (checksum seed);
  key-verifying_key = λ seed. refl;
  verify-sign = λ seed m. toy_verify-sign (checksum seed);
}

abbrev pub alice : NodeIdentity
alice = from_seed toy_crypto (1 ∷ replicate 31 0)
