-- ===== src/Storage/Package/Places.antt =====
-- Where `unpack_archive` of crates/gpumesh-storage/src/package.rs writes.
use gpu_share.Transfer.Paths.Safety.{components-is_name, is_name}
use gpu_share.Base.Map.{get}
use gpu_share.Transfer.Paths.{
  starts_with, components, names, is_absolute, has_dots, parent, name_eq, Name,
}
use gpu_share.Storage.Package.{
  unc, drive_letter, or_else_path, below_dest, trim_start_slashes, Disk, Dest, sanitize_rel,
}
use gpu_share.Base.{
  ◌∙◌, codes, list_beq_sound, is_empty, list_beq, nat_eq, list_eq, Bool-cases, ==_refl, trim, all,
  String, Bool, true, false, List, [], ◌∷◌, ◌++◌, inl, inr, ◌≡◌, refl, ap, sym, arith, nat_eq,
  string_eq, ◌&&◌, ◌||◌, not,
}
use gpu_share.Common.{>>=-eq-ok, bail_if, GpuMeshError, ok, Result}

-- A path below the directory, by the names in it; and its parent, as the file system resolves it,
-- is not outside of the directory as the file system resolves that.
pub record IsPlace (fs : Dest) (dest path : List Name) : Type 0 where
  parts : List Name
  below : path ≡ dest ++ parts
  names_only : all is_name parts ≡ true
  resolved :
      (p : List Name)
      → fs.canonicalize (parent path) ≡ ok p
      → starts_with p (or_else_path (fs.canonicalize dest) dest) ≡ true

name_eq_refl : (p : Name) → name_eq p p ≡ true
name_eq_refl [] = refl
name_eq_refl (c ∷ p) = rw (==_refl c) (name_eq_refl p)

starts_with_refl : (p : List Name) → starts_with p p ≡ true
starts_with_refl [] = refl
starts_with_refl (x ∷ p) = rw (name_eq_refl x) (starts_with_refl p)

bail_if_ok : (b : Bool) (e : GpuMeshError) (u : Unit {0}) → bail_if b e ≡ ok u → b ≡ false
bail_if_ok true e u h = cc
bail_if_ok false e u h = refl

below_dest_lem :
    (rel : String) (root p : List Name) (u : Unit {0})
    → below_dest rel root (ok p) ≡ ok u
    → starts_with p root ≡ true
below_dest_lem rel root p u h = elim (Bool-cases (starts_with p root)) [
  | inl e ↦ e
  | inr e ↦
      let off : (not (starts_with p root) && not (list_beq p root)) ≡ false = bail_if_ok _ _ u h in
      let same : p ≡ root = list_beq_sound p root (ground (arith, e, off)) in
      rw same (starts_with_refl root)
]

-- A path that the check of unpacking lets through is a place.
pub sanitize_rel-IsPlace :
    (fs : Dest) (dest : List Name) (text : String) (path : List Name)
    → sanitize_rel fs dest text ≡ ok path
    → IsPlace fs dest path
unfolding sanitize_rel
sanitize_rel-IsPlace fs dest text path h =
    let rel : String = trim_start_slashes (trim text) in
    let (u0, e0, h0) = >>=-eq-ok (bail_if (is_empty (codes rel)) _) _ h in
    let (u1, e1, h1) =
      >>=-eq-ok (bail_if (has_dots (codes rel) || is_absolute (codes rel)) _) _ h0 in
    let (u2, e2, h2) = >>=-eq-ok (bail_if (drive_letter (codes rel) || unc (codes rel)) _) _ h1 in
    let (u3, e3, h3) =
      >>=-eq-ok
        (below_dest rel (or_else_path (fs.canonicalize dest) dest)
          (fs.canonicalize (parent (dest ++ names (components (codes rel))))))
        _ h2 in
    let same : dest ++ names (components (codes rel)) ≡ path = ok_inj _ path h3 in
    record {
      parts = names (components (codes rel));
      below = sym same;
      names_only = components-is_name (codes rel);
      resolved = λ p e. below_dest_lem rel _ p u3 (
          ap
            (λ (r : Result (List Name)).
              below_dest rel (or_else_path (fs.canonicalize dest) dest) r)
            (sym e ∙ ap (λ (q : List Name). fs.canonicalize (parent q)) (sym same))
          ∙ e3);
    }
  where
    ok_inj : (a b : List Name) → ok a ≡ ok b → a ≡ b
    ok_inj a b e = cc

-- What unpacking did to one path of the disk: nothing, or the path is a place.
pub data Touched (fs : Dest) (dest k : List Name) (before after : Disk) : Type 0 where
  untouched : get k after ≡ get k before → Touched fs dest k before after
  place : IsPlace fs dest k → Touched fs dest k before after
