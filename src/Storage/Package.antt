-- ===== src/Storage/Package.antt =====
-- The package format of crates/gpumesh-storage/src/package.rs: the mark GPK1, the length of a
-- manifest, the manifest in JSON, and the bytes of the files one after the other. The walk over
-- the directory, SHA-256, serde_json and the file system are parameters.
pub mod Places
pub mod Unpacked
mod Tests
use Prim.Native.Char.{code}
use gpu_share.Protocol.Codec.{from_be_bytes, to_be_bytes}
use gpu_share.Transfer.Paths.{
  starts_with, slash, is_absolute, has_dots, components, names, parent, trim_slashes, Name,
}
use gpu_share.Base.{
  is_empty, trim, nat_eq, list_eq, drop, good, codes, take, bad, map, ltb, list_beq, Json, Parsed,
  ℕ, zero, suc, String, Bool, true, false, Option, none, some, List, [], ◌∷◌, ◌++◌, inl, inr, ◌≡◌,
  ◌≢◌, refl, ap, sym, arith, if◌then◌else◌, ◌==◌, nat_eq, string_eq, ◌+◌, ◌-◌, ◌*◌, ◌≤◌, ◌<◌, min,
  max, ◌&&◌, ◌||◌, not, ◌&◌, ◌⊎◌, ◌↔◌, length,
}
use gpu_share.Common.{storage, io, bail_if, GpuMeshError, ok, err, ◌>>=◌, ◌>>◌, Result}
use gpu_share.Base.Map
use gpu_share.Base.Map.{insert, Map}

pub record PackagedFile : Type 0 where
  pub relative_path : String
  pub size : ℕ
  pub sha256_hex : String

pub record PackageManifest : Type 0 where
  pub files : List PackagedFile
  pub total_bytes : ℕ
  pub sha256_hex : String

-- An entry of the walk: what it is, its path below the root, none where it stands outside, and
-- its content as reading gives it.
pub record Entry : Type 0 where
  pub is_file : Bool
  pub relative : Parsed String
  pub content : Result (List ℕ)

-- The libraries: the walk is given the filter on the names of entries and gives its errors as
-- none; `sha256` is the digest in hexadecimal digits.
pub record Packing : Type 0 where
  pub root_exists : Bool
  pub walk : (String → Bool) → List (Option Entry)
  pub sha256 : List ℕ → String
  pub json : Json PackageManifest
  pub create_out : Result (Unit {0})

-- The closure of `filter_entry`.
unfoldable pub is_kept : String → Bool
is_kept name = not (
    name == ".git"
    || name == "target"
    || name == "node_modules"
    || name == "__pycache__"
    || name == ".venv"
    || name == "venv")

-- `replace('\\', "/")`.
unfoldable pub with_slashes : String → String
with_slashes String.[] = String.[]
with_slashes (String.◌∷◌ c s) = String.◌∷◌ (if code c == b'\\' then "/" else c) (with_slashes s)

-- What the loop over the entries has gathered: the files with their contents, in order. The list
-- `files`, the list `blobs`, the total and the bytes fed to the hasher are read off it.
pub record Packed : Type 0 where
  pub path : String
  pub content : List ℕ

abbrev pub relative_path_of : Parsed String → Result String
relative_path_of (bad e) = err (storage e)
relative_path_of (good rel) = ok (with_slashes rel)

unfoldable pub gather : List (Option Entry) → Result (List Packed)
gather [] = ok []
gather (none ∷ entries) = gather entries
gather (some entry ∷ entries) =
    let rest = gather entries in
    if not entry.is_file
    then rest
    else relative_path_of entry.relative >>= λ rel. entry.content >>= λ bytes.
        rest >>= λ more. ok (record { path = rel; content = bytes } ∷ more)

abbrev pub contents : List Packed → List ℕ
contents [] = []
contents (p ∷ ps) = p.content ++ contents ps

unfoldable pub packaged_file : (List ℕ → String) → Packed → PackagedFile
packaged_file sha256 p = record {
  relative_path = p.path;
  size = length p.content;
  sha256_hex = sha256 p.content;
}

unfoldable pub manifest_of : (List ℕ → String) → List Packed → PackageManifest
unfolding packaged_file
manifest_of sha256 ps = record {
  files = map (packaged_file sha256) ps;
  total_bytes = length (contents ps);
  sha256_hex = sha256 (contents ps);
}

abbrev pub to_storage : {A : Type 0} → Parsed A → Result A
to_storage (bad e) = err (storage e)
to_storage (good a) = ok a

abbrev pub magic : List ℕ
magic = b'G' ∷ b'P' ∷ b'K' ∷ b'1' ∷ []

-- The manifest and the bytes of the file `out_path`.
unfoldable pub package_workdir : Packing → String → Result (PackageManifest × List ℕ)
package_workdir with root =
    bail_if (not with.root_exists) (storage ("workdir not found: " & root))
    >> (gather (with.walk is_kept) >>= λ ps.
        with.create_out
        >> (to_storage (with.json.to_vec (manifest_of with.sha256 ps)) >>= λ man_bytes. ok (
          manifest_of with.sha256 ps,
          magic ++ (to_be_bytes (length man_bytes) ++ (man_bytes ++ contents ps)),
        )))

-- `read_exact`: the bytes asked for and those that are left.
unfoldable pub read_exact : ℕ → List ℕ → Result (List ℕ × List ℕ)
read_exact n f =
    if ltb (length f) n then err (io "failed to fill whole buffer") else ok (take n f, drop n f)

-- The operations on the file system that unpacking uses.
pub record Dest : Type 0 where
  pub canonicalize : List Name → Result (List Name)
  pub create_dir_all : List Name → Result (Unit {0})
  pub write : List Name → Result (Unit {0})

abbrev pub or_else_path : Result (List Name) → List Name → List Name
or_else_path (err e) path = path
or_else_path (ok canon) path = canon

abbrev pub illegal : String → GpuMeshError
illegal rel = storage ("illegal path in package: " & rel)

abbrev pub drive_letter : List ℕ → Bool
drive_letter (a ∷ b ∷ _) = b == b':'
drive_letter _ = false

abbrev pub unc : List ℕ → Bool
unc (a ∷ b ∷ _) = a == b'\\' && b == b'\\'
unc _ = false

abbrev pub below_dest : String → List Name → Result (List Name) → Result (Unit {0})
below_dest rel root (err e) = ok tt
below_dest rel root (ok p) =
    bail_if (not (starts_with p root) && not (list_beq p root))
      (storage ("path escapes package root: " & rel))

-- `trim_start_matches(['/', '\\'])`.
unfoldable pub trim_start_slashes : String → String
trim_start_slashes String.[] = String.[]
trim_start_slashes (String.◌∷◌ c s) =
    let rest = trim_start_slashes s in
    if code c == slash || code c == b'\\' then rest else String.◌∷◌ c s

unfoldable pub sanitize_rel : Dest → List Name → String → Result (List Name)
sanitize_rel fs dest text =
    let rel = trim_start_slashes (trim text) in
    let path = dest ++ names (components (codes rel)) in
    bail_if (is_empty (codes rel)) (storage "empty path in package")
    >> (bail_if (has_dots (codes rel) || is_absolute (codes rel)) (illegal rel)
        >> (bail_if (drive_letter (codes rel) || unc (codes rel)) (illegal rel)
            >> (below_dest rel (or_else_path (fs.canonicalize dest) dest)
                  (fs.canonicalize (parent path))
                >> ok path)))

-- The files on the disk, by their paths.
abbrev pub Disk : Type 0
Disk = Map (List Name) (List ℕ)

-- The loop over the files of the manifest. The disk keeps what was written before an error.
unfoldable pub unpack_files :
    Dest → List Name → List PackagedFile → List ℕ → Disk → Disk × Result (Unit {0})
unpack_files fs dest [] f disk = (disk, ok tt)
unpack_files fs dest (file ∷ files) f disk = elim (read_exact file.size f) [
  | err e ↦ (disk, err e)
  | ok (bytes, rest) ↦ elim (sanitize_rel fs dest file.relative_path) [
    | err e ↦ (disk, err e)
    | ok path ↦ elim (fs.create_dir_all (parent path) >> fs.write path) [
      | err e ↦ (disk, err e)
      | ok _ ↦ unpack_files fs dest files rest (insert path bytes disk)
    ]
  ]
]

-- The mark, the length and the manifest, with the bytes behind it.
unfoldable pub read_manifest : Json PackageManifest → List ℕ → Result (PackageManifest × List ℕ)
read_manifest json archive = read_exact 4 archive >>= λ (mark, f).
    bail_if (not (list_beq mark magic)) (storage "invalid package magic")
    >> (read_exact 4 f >>= λ (len_buf, g). read_exact (from_be_bytes len_buf) g >>= λ (man_buf, h).
        to_storage (json.from_slice man_buf) >>= λ manifest. ok (manifest, h))

unfoldable pub unpack_archive :
    Json PackageManifest → Dest → List ℕ → List Name → Disk → Disk × Result PackageManifest
unpack_archive json fs archive dest disk = elim (read_manifest json archive) [
  | err e ↦ (disk, err e)
  | ok (manifest, f) ↦ elim (fs.create_dir_all dest) [
    | err e ↦ (disk, err e)
    | ok _ ↦
        let (after, r) = unpack_files fs dest manifest.files f disk in (after, r >> ok manifest)
  ]
]
