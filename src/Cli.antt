-- ===== src/Cli.antt =====
-- The parts of crates/gpumesh-cli/src/ that compute: the keys of the configuration in commands.rs,
-- names of projects and pairs of the environment in app.rs, remote paths, and job files.
pub mod Config
pub mod Names
mod Tests
use gpu_share.Base.{
  take, is_empty, leb, codes, is_ascii_alphanumeric, map, ℕ, zero, suc, String, Bool, true, false,
  Option, none, some, List, [], ◌∷◌, ◌++◌, inl, inr, ◌≡◌, ◌≢◌, refl, ap, sym, arith, if◌then◌else◌,
  ◌==◌, nat_eq, string_eq, ◌+◌, ◌-◌, ◌*◌, ◌≤◌, ◌<◌, min, max, ◌&&◌, ◌||◌, not, ◌&◌, ◌⊎◌, ◌↔◌,
  length,
}
use gpu_share.Common.{ok, err, ◌>>=◌, ◌>>◌, Result}

-- `split_once` at one character.
unfoldable pub split_once : ℕ → List ℕ → Option (List ℕ × List ℕ)
split_once sep [] = none
split_once sep (c ∷ cs) =
    let rest = split_once sep cs in
    if c == sep then some ([], cs) else elim rest [ none ↦ none | some (k, v) ↦ some (c ∷ k, v) ]

-- `parse_env`: the key and the value, or the text that is not one.
unfoldable pub parse_env : List ℕ → Option (List ℕ × List ℕ)
parse_env s = split_once b'=' s

abbrev is_letter : ℕ → Bool
is_letter c = (leb b'A' c && leb c b'Z') || (leb b'a' c && leb c b'z')

-- A single letter before the colon is a drive.
abbrev is_drive : List ℕ → Bool
is_drive (c ∷ []) = is_letter c
is_drive _ = false

abbrev checked_remote : Option (List ℕ × List ℕ) → Option (List ℕ × List ℕ)
checked_remote none = none
checked_remote (some (peer, path)) =
    if is_drive peer
    then none
    else if is_empty peer || is_empty path
    then none
    else some (peer, path)

unfoldable pub split_remote : List ℕ → Option (List ℕ × List ℕ)
split_remote s = checked_remote (split_once b':' s)

abbrev pub name_char : ℕ → ℕ
name_char c = if is_ascii_alphanumeric c || c == b'-' || c == b'_' then c else b'_'

unfoldable pub trim_start_underscores : List ℕ → List ℕ
trim_start_underscores [] = []
trim_start_underscores (c ∷ cs) =
    let rest = trim_start_underscores cs in if c == b'_' then rest else c ∷ cs

abbrev pub keep_unless_underscore : ℕ → List ℕ → List ℕ
keep_unless_underscore c [] = if c == b'_' then [] else c ∷ []
keep_unless_underscore c (d ∷ ds) = c ∷ d ∷ ds

unfoldable pub trim_end_underscores : List ℕ → List ℕ
trim_end_underscores [] = []
trim_end_underscores (c ∷ cs) = keep_unless_underscore c (trim_end_underscores cs)

abbrev pub project : List ℕ
project = codes "project"

unfoldable pub sanitize_name : List ℕ → List ℕ
unfolding trim_start_underscores trim_end_underscores
sanitize_name raw =
    let s = trim_end_underscores (trim_start_underscores (map name_char raw)) in
    if is_empty s then project else take 64 s

-- `project_name`, by the name of the directory, if it has one that is a text.
unfoldable pub project_name : Option (List ℕ) → Option (List ℕ) → List ℕ
unfolding sanitize_name
project_name dir_name (some n) = sanitize_name n
project_name (some s) none = sanitize_name s
project_name none none = project

-- An entry of the environment in a job file.
pub data EnvEntry : Type 0 where
  pairs : List (List ℕ × List ℕ) → EnvEntry
  pair : List ℕ → List ℕ → EnvEntry
  text : List ℕ → EnvEntry

abbrev entry_pairs : EnvEntry → List (List ℕ × List ℕ)
entry_pairs (pairs m) = m
entry_pairs (pair key value) = (key, value) ∷ []
entry_pairs (text s) = elim (split_once b'=' s) [ none ↦ [] | some (k, v) ↦ (k, v) ∷ [] ]

-- `JobFile::env_pairs`.
unfoldable pub env_pairs : List EnvEntry → List (List ℕ × List ℕ)
env_pairs [] = []
env_pairs (e ∷ es) = entry_pairs e ++ env_pairs es
