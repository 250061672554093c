-- ===== src/Storage/Package/Tests.antt =====
-- A package of one file, over a serialiser that knows its manifest alone.
use gpu_share.Base.Map
use gpu_share.Network.Channel.{arrived}
use gpu_share.Transfer.Download.{serve_download, Readable}
use gpu_share.Jobs.Outputs.{pull_job_outputs-package_workdir, pack_path, pull_job_outputs}
use gpu_share.Storage.Package.Unpacked.{Placed, write_all}
use gpu_share.Protocol.Codec.{to_be_bytes}
use native.Mathlib.Decide.{ℕ_discrete}
use mathlib.Core.Logic.{ite, if_pos, if_neg}
use gpu_share.Transfer.Paths.{
  Files, resolve_download_path, is_safe_job_id, rest_components, split, components, Name,
}
use gpu_share.Storage.Package.{
  contents, to_storage, illegal, is_kept, packaged_file, trim_start_slashes, manifest_of, magic,
  with_slashes, Packed, sanitize_rel, gather, package_workdir, Packing, PackagedFile, Entry,
  PackageManifest, Dest,
}
use gpu_share.Base.{
  nat_eq, list_eq, list_beq, bad, trim, codes, str_iff, show, good, Json, Parsed, Bool-cases, ℕ,
  String, Bool, true, false, Option, none, some, List, [], ◌∷◌, ◌++◌, inl, inr, ◌≡◌, refl, ap,
  arith, ◌==◌, nat_eq, string_eq, length,
}
use gpu_share.Common.{ok, err, ◌>>=◌}

abbrev hello_bytes : List ℕ
hello_bytes = 104 ∷ 105 ∷ []

abbrev digest : List ℕ → String
digest bytes = show (length bytes)

abbrev hello : Packed
hello = record { path = "src/a.txt"; content = hello_bytes }

abbrev manifest : PackageManifest
manifest = record {
  files = record { relative_path = "src/a.txt"; size = 2; sha256_hex = "2" } ∷ [];
  total_bytes = 2;
  sha256_hex = "2";
}

text-discrete : Discrete String
text-discrete a b = elim (Bool-cases (a == b)) [
  | inl e ↦ yes ((str_iff a b).0 e)
  | inr e ↦ no (λ p. ground (arith, (str_iff a b).1 p))
]

PackagedFile-discrete : Discrete PackagedFile
PackagedFile-discrete = hlevel (ℕ_discrete, text-discrete)

PackageManifest-discrete : Discrete PackageManifest
PackageManifest-discrete = hlevel (ℕ_discrete, text-discrete, PackagedFile-discrete)

print : PackageManifest → Parsed (List ℕ)
print m = ite (PackageManifest-discrete m manifest) (good (1 ∷ [])) (bad "unknown manifest")

parse-print : (m : PackageManifest) (bytes : List ℕ) → print m ≡ good bytes → good manifest ≡ good m
unfolding print
parse-print m bytes h = elim (PackageManifest-discrete m manifest) [
  | yes p ↦ cc p
  | no p ↦ absurd (ground (arith, rw (if_neg _ p, print) at h))
]

print-manifest : print manifest ≡ good (1 ∷ [])
unfolding print
print-manifest =
    if_pos (PackageManifest-discrete manifest manifest) refl (good (1 ∷ []))
      (bad "unknown manifest")

abbrev json : Json PackageManifest
json = record { to_vec = print; from_slice = λ b. good manifest; from_slice-to_vec = parse-print }

abbrev entries : (String → Bool) → List (Option Entry)
entries keeps =
    none
    ∷ some (record { is_file = false; relative = good "src"; content = ok [] })
    ∷ some (record { is_file = true; relative = good "src\\a.txt"; content = ok hello_bytes })
    ∷ []

abbrev packing : Packing
packing = record {
  root_exists = true;
  walk = entries;
  sha256 = digest;
  json = json;
  create_out = ok tt;
}

abbrev fs : Dest
fs = record { canonicalize = λ p. ok p; create_dir_all = λ p. ok tt; write = λ p. ok tt }

abbrev out : List Name
out = codes "out" ∷ []

abbrev target : List Name
target = codes "out" ∷ codes "src" ∷ codes "a.txt" ∷ []

gathered : gather (entries is_kept) ≡ ok (hello ∷ [])
unfolding gather with_slashes
gathered = refl

let_through : sanitize_rel fs out "src/a.txt" ≡ ok target
unfolding sanitize_rel trim trim_start_slashes components split rest_components list_beq
let_through = refl

packed :
    package_workdir packing "proj" ≡ ok (manifest, magic ++ (0 ∷ 0 ∷ 0 ∷ 1 ∷ 1 ∷ 104 ∷ 105 ∷ []))
unfolding package_workdir manifest_of packaged_file to_be_bytes show gather with_slashes
packed =
    ap
      (λ (r : Parsed (List ℕ)). to_storage r >>= λ bytes.
        ok (manifest, magic ++ (to_be_bytes (length bytes) ++ (bytes ++ contents (hello ∷ [])))))
      print-manifest

-- A path that would climb is refused.
parent_refused : sanitize_rel fs out "../etc/passwd" ≡ err (illegal "../etc/passwd")
unfolding sanitize_rel trim trim_start_slashes components split rest_components list_beq
parent_refused = refl

abbrev archive : List ℕ
archive = magic ++ (0 ∷ 0 ∷ 0 ∷ 1 ∷ 1 ∷ 104 ∷ 105 ∷ [])

abbrev at_provider : Files
at_provider = record {
  jobs_dir = codes "jobs" ∷ [];
  incoming = codes "incoming" ∷ [];
  create_dir_all = λ p. ok tt;
  canonicalize = λ p. ok p;
}

abbrev full : List Name
full = codes "jobs" ∷ codes "j1" ∷ codes "outputs.gpk" ∷ []

resolved : resolve_download_path at_provider "jobs/j1/outputs.gpk" ≡ ok full
unfolding resolve_download_path is_safe_job_id components split rest_components list_beq
resolved = refl

abbrev stored : List Name → Readable
stored p = some (ok archive)

safe_id : is_safe_job_id (codes "j1") ≡ true
unfolding is_safe_job_id
safe_id = refl

pull_job_outputs-package_workdir_example :
    pull_job_outputs json fs "j1" out
      (arrived (serve_download digest at_provider stored none "jobs/j1/outputs.gpk" "t1").0 ++ [])
      []
    ≡ (
      Map.remove
          (pack_path out)
          (write_all ((target, hello_bytes) ∷ []) (Map.insert (pack_path out) archive [])),
      some (ok tt),
    )
pull_job_outputs-package_workdir_example =
    pull_job_outputs-package_workdir packing "proj" manifest archive (1 ∷ []) (hello ∷ [])
      at_provider stored none digest "jobs/j1/outputs.gpk" "t1" full fs out "j1"
      ((target, hello_bytes) ∷ []) [] [] packed gathered print-manifest (omega arith) resolved refl
      safe_id refl refl refl (Placed.one_more let_through refl refl Placed.none_left)
