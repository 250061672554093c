-- ===== src/Base/Serde.antt =====
-- Libraries that parse and print: their answers, and serde_json over one type.
use Prim.Native.Nat.{ℕ}
use Prim.Native.String.{String}
use mathlib.Core.Path.{refl, ◌≡◌}
use mathlib.Core.Logic.{◌⊎◌, inl, inr}
use mathlib.Core.List.{List, []}

-- A library's answer: its error's text, or the value.
pub data Parsed (A : Type 0) : Type 0 where
  bad : String → Parsed A
  good : A → Parsed A

pub Parsed-cases :
    {A : Type 0} (r : Parsed A) → ((e : String) × (r ≡ bad e)) ⊎ ((a : A) × (r ≡ good a))
Parsed-cases (bad e) = inl (e, refl)
Parsed-cases (good a) = inr (a, refl)

-- `unwrap_or_default` on bytes.
abbrev pub or_no_bytes : Parsed (List ℕ) → List ℕ
or_no_bytes (bad e) = []
or_no_bytes (good b) = b

pub record Json (A : Type 0) : Type 0 where
  pub to_vec : A → Parsed (List ℕ)
  pub from_slice : List ℕ → Parsed A
  -- What was serialised is read back.
  pub from_slice-to_vec :
      (a : A) (bytes : List ℕ) → to_vec a ≡ good bytes → from_slice bytes ≡ good a
