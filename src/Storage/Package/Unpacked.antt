-- ===== src/Storage/Package/Unpacked.antt =====
-- What `unpack_archive` of crates/gpumesh-storage/src/package.rs makes of a package.
use mathlib.Core.Path.{subst}
use gpu_share.Protocol.Codec.RoundTrip.{from_be_bytes_self, length-to_be_bytes}
use gpu_share.Protocol.Codec.{from_be_bytes, to_be_bytes}
use mathlib.Core.List.{append-nil, append_assoc}
use gpu_share.Base.Map.{insert}
use gpu_share.Transfer.Paths.{parent, Name}
use gpu_share.Storage.Package.{
  to_storage, magic, is_kept, gather, contents, sanitize_rel, Packing, PackageManifest, Packed,
  PackagedFile, manifest_of, package_workdir, unpack_files, Dest, unpack_archive, read_exact,
  packaged_file, read_manifest, Disk,
}
use gpu_share.Base.{
  list_beq_refl, ◌∙◌, ◌^◌, drop-append_self, take-append_self, good, nat_eq, length-append, list_eq,
  map, ltb, Json, ℕ, String, false, List, [], ◌∷◌, ◌++◌, ◌≡◌, refl, ap, sym, arith, nat_eq,
  string_eq, ◌<◌, not, length,
}
use gpu_share.Common.{ok_inj, bail_if, >>=-eq-ok, ok}

-- One write of the unpacking: a path and the bytes.
abbrev pub Written : Type 0
Written = List Name × List ℕ

abbrev pub bytes_of : List Written → List ℕ
bytes_of [] = []
bytes_of ((path, bytes) ∷ ws) = bytes ++ bytes_of ws

-- The disk after the writes, in order.
abbrev pub write_all : List Written → Disk → Disk
write_all [] disk = disk
write_all ((path, bytes) ∷ ws) disk = write_all ws (insert path bytes disk)

-- The files of a manifest, each with a content of its size and the path that it is let through to,
-- which can be written.
pub data Fits (fs : Dest) (dest : List Name) : List PackagedFile → List Written → Type 0 where
  none_left : Fits fs dest [] []
  one_more :
      {file : PackagedFile} {path : List Name} {bytes : List ℕ} {files : List PackagedFile}
      {ws : List Written}
      → length bytes ≡ file.size
      → sanitize_rel fs dest file.relative_path ≡ ok path
      → fs.create_dir_all (parent path) ≡ ok tt
      → fs.write path ≡ ok tt
      → Fits fs dest files ws
      → Fits fs dest (file ∷ files) ((path, bytes) ∷ ws)

pub read_exact_lem :
    (n : ℕ) (xs ys : List ℕ) → length xs ≡ n → read_exact n (xs ++ ys) ≡ ok (xs, ys)
unfolding read_exact
read_exact_lem n xs ys h =
    let whole : ltb (length (xs ++ ys)) (length xs) ≡ false = ground (arith, length-append xs ys) in
    rw (← h, whole, take-append_self xs ys, drop-append_self xs ys) refl

unpack_files_lem :
    {fs : Dest} {dest : List Name} {files : List PackagedFile} {ws : List Written}
    (fits : Fits fs dest files ws) (rest : List ℕ) (disk : Disk)
    → unpack_files fs dest files (bytes_of ws ++ rest) disk ≡ (write_all ws disk, ok tt)
unfolding unpack_files
unpack_files_lem none_left rest disk = refl
unpack_files_lem {fs} {dest} (one_more {file} {path} {bytes} {files} {ws} e s c w fits) rest disk =
    let front : read_exact file.size ((bytes ++ bytes_of ws) ++ rest)
        ≡ ok (bytes, bytes_of ws ++ rest) =
      rw (append_assoc) (read_exact_lem file.size bytes (bytes_of ws ++ rest) e) in
    rw (front, s, c, w, unpack_files) (unpack_files_lem fits rest (insert path bytes disk))

read_manifest_lem :
    (json : Json PackageManifest) (m : PackageManifest) (man_bytes rest : List ℕ)
    → json.to_vec m ≡ good man_bytes
    → length man_bytes < 2 ^ 32
    → read_manifest json (magic ++ (to_be_bytes (length man_bytes) ++ (man_bytes ++ rest)))
      ≡ ok (m, rest)
unfolding read_manifest
read_manifest_lem json m man_bytes rest e small =
    let len : ℕ = length man_bytes in
    let mark : read_exact 4 (magic ++ (to_be_bytes len ++ (man_bytes ++ rest)))
        ≡ ok (magic, to_be_bytes len ++ (man_bytes ++ rest)) =
      read_exact_lem 4 magic _ refl in
    let size : read_exact 4 (to_be_bytes len ++ (man_bytes ++ rest))
        ≡ ok (to_be_bytes len, man_bytes ++ rest) =
      read_exact_lem 4 (to_be_bytes len) _ (length-to_be_bytes len) in
    let body : read_exact len (man_bytes ++ rest) ≡ ok (man_bytes, rest) =
      read_exact_lem len man_bytes rest refl in
    let back : json.from_slice man_bytes ≡ good m = json.from_slice-to_vec m man_bytes e in
    let num : from_be_bytes (to_be_bytes len) ≡ len = from_be_bytes_self len small in
    rw (mark, list_beq_refl magic, size, num, body, back) refl

-- An archive of a manifest and contents of the sizes in it is unpacked to the paths of its files,
-- whatever the contents and the digests of the manifest are.
pub unpack_archive_lem :
    (json : Json PackageManifest) (fs : Dest) (m : PackageManifest) (dest : List Name)
    (ws : List Written) (man_bytes rest : List ℕ) (disk : Disk)
    → json.to_vec m ≡ good man_bytes
    → length man_bytes < 2 ^ 32
    → fs.create_dir_all dest ≡ ok tt
    → Fits fs dest m.files ws
    → unpack_archive json fs
        (magic ++ (to_be_bytes (length man_bytes) ++ (man_bytes ++ (bytes_of ws ++ rest))))
        dest
        disk
      ≡ (write_all ws disk, ok m)
unfolding unpack_archive
unpack_archive_lem json fs m dest ws man_bytes rest disk e small made fits =
    rw
      (
        read_manifest_lem json m man_bytes (bytes_of ws ++ rest) e small,
        made,
        unpack_files_lem fits rest disk,
        unpack_archive,
      )
      refl

-- Packed files, each with the path that unpacking lets it through to, which can be written.
pub data Placed (fs : Dest) (dest : List Name) : List Packed → List Written → Type 0 where
  none_left : Placed fs dest [] []
  one_more :
      {p : Packed} {path : List Name} {ps : List Packed} {ws : List Written}
      → sanitize_rel fs dest p.path ≡ ok path
      → fs.create_dir_all (parent path) ≡ ok tt
      → fs.write path ≡ ok tt
      → Placed fs dest ps ws
      → Placed fs dest (p ∷ ps) ((path, p.content) ∷ ws)

Placed-Fits :
    {fs : Dest} {dest : List Name} {ps : List Packed} {ws : List Written} (sha : List ℕ → String)
    → Placed fs dest ps ws
    → Fits fs dest (map (packaged_file sha) ps) ws × (contents ps ≡ bytes_of ws)
unfolding packaged_file
Placed-Fits sha Placed.none_left = (Fits.none_left, refl)
Placed-Fits sha (Placed.one_more {p} s c w placed) =
    let (fits, same) = Placed-Fits sha placed in
    (Fits.one_more refl s c w fits, ap (λ (r : List ℕ). p.content ++ r) same)

-- What a directory is packed to is unpacked to the same contents, if the manifest takes less than
-- 2 ^ 32 bytes and every path is let through and can be written.
pub unpack_archive-package_workdir :
    (w : Packing) (fs : Dest) (root : String) (dest : List Name) (m : PackageManifest)
    (archive man_bytes : List ℕ) (ps : List Packed) (ws : List Written) (disk : Disk)
    → package_workdir w root ≡ ok (m, archive)
    → gather (w.walk is_kept) ≡ ok ps
    → w.json.to_vec m ≡ good man_bytes
    → length man_bytes < 2 ^ 32
    → fs.create_dir_all dest ≡ ok tt
    → Placed fs dest ps ws
    → unpack_archive w.json fs archive dest disk ≡ (write_all ws disk, ok m)
unfolding package_workdir manifest_of
unpack_archive-package_workdir w fs root dest m archive man_bytes ps ws disk h g j small made
      placed =
    let (fits, same) = Placed-Fits w.sha256 placed in
    let (u0, e0, h0) = >>=-eq-ok (bail_if (not w.root_exists) _) _ h in
    let (qs, e1, h1) = >>=-eq-ok (gather (w.walk is_kept)) _ h0 in
    let (u2, e2, h2) = >>=-eq-ok w.create_out _ h1 in
    let (bytes, e3, h3) = >>=-eq-ok (to_storage (w.json.to_vec (manifest_of w.sha256 qs))) _ h2 in
    let qp : qs ≡ ps = ok_inj (sym e1 ∙ g) in
    let pair : (
      manifest_of w.sha256 qs,
      magic ++ (to_be_bytes (length bytes) ++ (bytes ++ contents qs)),
    )
        ≡ (m, archive) =
      ok_inj h3 in
    let em : manifest_of w.sha256 qs ≡ m = ap (λ (r : PackageManifest × List ℕ). r.0) pair in
    let eb : bytes ≡ man_bytes = ok_inj (sym e3 ∙ ap to_storage (ap w.json.to_vec em ∙ j)) in
    let files : Fits fs dest m.files ws =
      subst (λ (n : PackageManifest). Fits fs dest n.files ws)
        (ap (manifest_of w.sha256) (sym qp) ∙ em) fits in
    let whole : magic ++ (to_be_bytes (length man_bytes) ++ (man_bytes ++ (bytes_of ws ++ [])))
        ≡ archive =
      rw (append-nil, ← same, ← qp, ← eb) (ap (λ (r : PackageManifest × List ℕ). r.1) pair) in
    subst (λ (a : List ℕ). unpack_archive w.json fs a dest disk ≡ (write_all ws disk, ok m)) whole
      (unpack_archive_lem w.json fs m dest ws man_bytes [] disk j small made files)
