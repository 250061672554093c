-- ===== src/Transfer/Paths/Safety.antt =====
-- The places that `upload_dest` of crates/gpumesh-core/src/remote.rs lets an upload be written to.
use gpu_share.Base.{
  all-append, Bool-cases, ◌∙◌, all, is_empty, codes, any, ℕ, Bool, true, false, List, [], ◌∷◌, ◌++◌,
  inl, inr, ◌≡◌, refl, ap, arith, if◌then◌else◌, ◌==◌, nat_eq, string_eq, ◌&&◌, not,
}
use gpu_share.Common.{ok}
use gpu_share.Transfer.Paths.{
  parent_dir, cur_dir, starts_with, root_dir, name_eq, parent, components_of, first_component,
  component_of, cons_head, normal, split, rest_components, components, slash, names, Name,
  Component, Files,
}

-- The name of one entry of a directory.
abbrev pub is_name : Name → Bool
is_name p =
    not (is_empty p)
    && not (name_eq p (b'.' ∷ []))
    && not (name_eq p (b'.' ∷ b'.' ∷ []))
    && not (any (λ c. c == slash) p)

abbrev pub no_slash : Name → Bool
no_slash p = not (any (λ c. c == slash) p)

no_slash-cons_head :
    (c : ℕ) (ps : List Name)
    → (c == slash) ≡ false
    → all no_slash ps ≡ true
    → all no_slash (cons_head c ps) ≡ true
no_slash-cons_head c [] h k = ground (arith, h)
no_slash-cons_head c (p ∷ ps) h k = ground (arith, h)

pub no_slash-split : (s : List ℕ) → all no_slash (split slash s) ≡ true
unfolding split
no_slash-split [] = refl
no_slash-split (c ∷ cs) = elim (Bool-cases (c == slash)) [
  | inl y ↦ rw (y, split) (no_slash-split cs)
  | inr y ↦ rw (y, split) (no_slash-cons_head c (split slash cs) y (no_slash-split cs))
]

names-append : (xs ys : List Component) → names (xs ++ ys) ≡ names xs ++ names ys
names-append [] ys = refl
names-append (root_dir ∷ xs) ys = names-append xs ys
names-append (cur_dir ∷ xs) ys = names-append xs ys
names-append (parent_dir ∷ xs) ys = names-append xs ys
names-append (normal p ∷ xs) ys = ap (λ (r : List Name). p ∷ r) (names-append xs ys)

names-append_all :
    (xs ys : List Component)
    → all is_name (names xs) ≡ true
    → all is_name (names ys) ≡ true
    → all is_name (names (xs ++ ys)) ≡ true
names-append_all xs ys h k =
    ap (λ (r : List Name). all is_name r) (names-append xs ys)
    ∙ all-append is_name (names xs) (names ys)
    ∙ ground (arith, h, k)

plain-is_name :
    (p : Name)
    → no_slash p ≡ true
    → is_empty p ≡ false
    → name_eq p (b'.' ∷ []) ≡ false
    → all is_name (names (if name_eq p (b'.' ∷ b'.' ∷ []) then parent_dir ∷ [] else normal p ∷ []))
      ≡ true
plain-is_name p h x y = elim (Bool-cases (name_eq p (b'.' ∷ b'.' ∷ []))) [
  | inl z ↦ rw z refl
  | inr z ↦ rw z (ground (arith, x, y, z, h))
]

component_of-is_name : (p : Name) → no_slash p ≡ true → all is_name (names (component_of p)) ≡ true
component_of-is_name p h = elim (Bool-cases (is_empty p)) [
  | inl x ↦ rw x refl
  | inr x ↦ elim (Bool-cases (name_eq p (b'.' ∷ []))) [
    | inl y ↦ rw (x, y) refl
    | inr y ↦ rw (x, y) (plain-is_name p h x y)
  ]
]

rest_components-is_name :
    (ps : List Name) → all no_slash ps ≡ true → all is_name (names (rest_components ps)) ≡ true
unfolding rest_components
rest_components-is_name [] h = refl
rest_components-is_name (p ∷ ps) h =
    names-append_all (component_of p) (rest_components ps) (component_of-is_name p (ground arith))
      (rest_components-is_name ps (ground arith))

first_component-is_name :
    (s : List ℕ) (p : Name) → no_slash p ≡ true → all is_name (names (first_component s p)) ≡ true
first_component-is_name [] p h = refl
first_component-is_name (c ∷ cs) p h = elim (Bool-cases (is_empty p)) [
  | inl y ↦ rw y refl
  | inr y ↦ elim (Bool-cases (name_eq p (b'.' ∷ []))) [
    | inl z ↦ rw (y, z) refl
    | inr z ↦ rw (y, z) (plain-is_name p h y z)
  ]
]

pub components-is_name : (s : List ℕ) → all is_name (names (components s)) ≡ true
unfolding components
components-is_name s = go (split slash s) (no_slash-split s)
  where
    go : (ps : List Name) → all no_slash ps ≡ true → all is_name (names (components_of s ps)) ≡ true
    go [] h = refl
    go (p ∷ ps) h =
        names-append_all (first_component s p) (rest_components ps)
          (first_component-is_name s p (ground arith)) (rest_components-is_name ps (ground arith))

-- Where an upload is written: in the directory of its transfer, which is one entry of the jobs'
-- directory, or below the incoming directory, both by the names in the path and as the file system
-- resolves the parent directory.
pub data UploadPlace (fs : Files) (dest : List Name) : Type 0 where
  job :
      (t : Name)
      → is_name t ≡ true
      → dest ≡ (fs.jobs_dir ++ t ∷ []) ++ codes "workload.gpk" ∷ []
      → UploadPlace fs dest
  incoming_file :
      (base parts resolved : List Name)
      → fs.canonicalize fs.incoming ≡ ok base
      → dest ≡ base ++ parts
      → all is_name parts ≡ true
      → fs.canonicalize (parent dest) ≡ ok resolved
      → starts_with resolved base ≡ true
      → UploadPlace fs dest
