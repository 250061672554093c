-- ===== src/Transfer/Paths.antt =====
-- The path checks of crates/gpumesh-core/src/remote.rs: where an upload may be written and what a
-- download may read. Paths are those of Unix, and a path is its list of components.
pub mod Safety
pub mod Downloads
mod Tests
use gpu_share.Base.{
  is_ascii_alphanumeric, all, codes, leb, any, retain, is_empty, ℕ, zero, suc, String, Bool, true,
  false, Option, none, some, List, [], ◌∷◌, ◌++◌, inl, inr, ◌≡◌, ◌≢◌, refl, ap, sym, arith,
  if◌then◌else◌, ◌==◌, nat_eq, string_eq, ◌+◌, ◌-◌, ◌*◌, ◌≤◌, ◌<◌, min, max, ◌&&◌, ◌||◌, not, ◌&◌,
  ◌⊎◌, ◌↔◌, length,
}
use gpu_share.Common.{storage, GpuMeshError, ok, err, ◌>>=◌, ◌>>◌, Result}

abbrev pub Name : Type 0
Name = List ℕ

abbrev pub slash : ℕ
slash = b'/'

abbrev cons_head : ℕ → List Name → List Name
cons_head c [] = (c ∷ []) ∷ []
cons_head c (p ∷ ps) = (c ∷ p) ∷ ps

-- `str::split` at one character.
unfoldable pub split : ℕ → List ℕ → List Name
split sep [] = [] ∷ []
split sep (c ∷ cs) = let rest = split sep cs in if c == sep then [] ∷ rest else cons_head c rest

abbrev pub name_eq : Name → Name → Bool
name_eq [] [] = true
name_eq (c ∷ x) (d ∷ y) = (c == d) && name_eq x y
name_eq _ _ = false

-- `std::path::Component` without the prefixes of Windows.
pub data Component : Type 0 where
  root_dir cur_dir parent_dir : Component
  normal : Name → Component

-- A piece between two separators after the first one; empty pieces and dots vanish.
abbrev component_of : Name → List Component
component_of p =
    if is_empty p || name_eq p (b'.' ∷ [])
    then []
    else if name_eq p (b'.' ∷ b'.' ∷ [])
    then parent_dir ∷ []
    else normal p ∷ []

unfoldable pub rest_components : List Name → List Component
rest_components [] = []
rest_components (p ∷ ps) = component_of p ++ rest_components ps

-- The first piece is empty in an absolute path, and a dot there is a component.
abbrev first_component : List ℕ → Name → List Component
first_component [] p = []
first_component (c ∷ cs) p =
    if is_empty p
    then root_dir ∷ []
    else if name_eq p (b'.' ∷ [])
    then cur_dir ∷ []
    else component_of p

abbrev components_of : List ℕ → List Name → List Component
components_of s [] = []
components_of s (p ∷ ps) = first_component s p ++ rest_components ps

-- `Path::components`.
unfoldable pub components : List ℕ → List Component
components s = components_of s (split slash s)

-- The directories of the program and the operations on the file system that the checks rely on.
pub record Files : Type 0 where
  pub jobs_dir : List Name
  pub incoming : List Name
  pub create_dir_all : List Name → Result (Unit {0})
  pub canonicalize : List Name → Result (List Name)

abbrev pub parent : List Name → List Name
parent [] = []
parent (p ∷ []) = []
parent (p ∷ q ∷ ps) = p ∷ parent (q ∷ ps)

-- `Path::starts_with`, component by component.
abbrev pub starts_with : List Name → List Name → Bool
starts_with path [] = true
starts_with [] (b ∷ bs) = false
starts_with (p ∷ ps) (b ∷ bs) = name_eq p b && starts_with ps bs

-- `join` of a relative path: its names are appended.
abbrev pub names : List Component → List Name
names [] = []
names (normal p ∷ cs) = p ∷ names cs
names (c ∷ cs) = names cs

abbrev is_root : Component → Bool
is_root root_dir = true
is_root _ = false

abbrev is_parent : Component → Bool
is_parent parent_dir = true
is_parent _ = false

abbrev pub is_absolute : List ℕ → Bool
is_absolute s = any is_root (components s)

-- One component, and a normal one.
abbrev pub single_name : List Component → Option Name
single_name (normal p ∷ []) = some p
single_name _ = none

abbrev unsafe_upload : String → GpuMeshError
unsafe_upload path = storage ("unsafe upload path rejected: " & path)

unfoldable pub upload_dest : Files → String → String → Result (List Name)
upload_dest fs path transfer_id =
    if path == "workload.gpk"
    then elim (single_name (components (codes transfer_id))) [
      | none ↦ err (storage "unsafe transfer id rejected")
      | some t ↦
          let dir = fs.jobs_dir ++ t ∷ [] in
          fs.create_dir_all dir >> ok (dir ++ codes "workload.gpk" ∷ [])
    ]
    else fs.create_dir_all fs.incoming
      >> (if is_absolute (codes path) || any is_parent (components (codes path))
          then err (unsafe_upload path)
          else fs.canonicalize fs.incoming >>= λ base.
              let dest = base ++ names (components (codes path)) in
              fs.create_dir_all (parent dest)
              >> (fs.canonicalize (parent dest) >>= λ canonical_parent.
                  if starts_with canonical_parent base
                  then ok dest
                  else err (storage ("upload path escapes incoming directory: " & path))))

-- Over ASCII, the only text that passes, bytes are characters.
unfoldable pub is_safe_job_id : Name → Bool
is_safe_job_id id =
    not (is_empty id)
    && leb (length id) 64
    && all (λ c. is_ascii_alphanumeric c || c == b'-' || c == b'_') id

abbrev pub trim_slashes : List ℕ → List ℕ
trim_slashes [] = []
trim_slashes (c ∷ cs) =
    let rest = trim_slashes cs in if c == slash || c == b'\\' then rest else c ∷ cs

abbrev backslash_to_slash : ℕ → ℕ
backslash_to_slash c = if c == b'\\' then slash else c

abbrev map_slash : List ℕ → List ℕ
map_slash [] = []
map_slash (c ∷ cs) = backslash_to_slash c ∷ map_slash cs

-- `contains("..")`.
abbrev pub has_dots : List ℕ → Bool
has_dots [] = false
has_dots (c ∷ []) = false
has_dots (c ∷ d ∷ cs) = (c == b'.' && d == b'.') || has_dots (d ∷ cs)

abbrev has_colon : Name → Bool
has_colon p = any (λ c. c == b':') p

abbrev is_outputs : List Name → Option Name
is_outputs (a ∷ id ∷ c ∷ []) =
    if name_eq a (codes "jobs") && name_eq c (codes "outputs.gpk") then some id else none
is_outputs _ = none

abbrev pub bad_part : Name → Bool
bad_part p = name_eq p (b'.' ∷ b'.' ∷ []) || name_eq p (b'.' ∷ []) || has_colon p

abbrev unsafe_download : String → GpuMeshError
unsafe_download path = storage ("unsafe download path rejected: " & path)

abbrev pub download_parts : List ℕ → List Name
download_parts clean = retain (λ p. not (is_empty p)) (split slash clean)

unfoldable pub resolve_download_path : Files → String → Result (List Name)
resolve_download_path fs path =
    let clean = map_slash (trim_slashes (codes path)) in
    let parts = download_parts clean in
    if is_empty clean || has_dots clean
    then err (unsafe_download path)
    else elim (is_outputs parts) [
      | some id ↦
          if is_safe_job_id id
          then ok (fs.jobs_dir ++ id ∷ codes "outputs.gpk" ∷ [])
          else err (storage "invalid job id")
      | none ↦ if any bad_part parts then err (unsafe_download path) else ok (fs.incoming ++ parts)
    ]
