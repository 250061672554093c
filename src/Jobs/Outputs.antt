-- ===== src/Jobs/Outputs.antt =====
-- `pull_job_outputs` of crates/gpumesh-core/src/remote.rs: a provider's package of the outputs of a
-- job, fetched and unpacked by the client.
use gpu_share.Transfer.Fetched.{serve_download_lem}
use gpu_share.Base.Map.{insert, remove}
use gpu_share.Network.Channel.{arrived}
use gpu_share.Storage.Package.Unpacked.{unpack_archive-package_workdir, write_all, Placed, Written}
use gpu_share.Transfer.Download.{
  still_open, gave_up, fetched, fetched, serve_download, Readable, download_loop,
}
use gpu_share.Protocol.{Message}
use gpu_share.Transfer.Paths.{parent, resolve_download_path, is_safe_job_id, Files, Name}
use gpu_share.Storage.Package.{
  is_kept, gather, package_workdir, unpack_archive, Packed, Disk, PackageManifest, Packing, Dest,
}
use gpu_share.Base.{
  list_eq, nat_eq, ◌^◌, good, codes, Json, ℕ, String, true, Option, none, some, List, [], ◌∷◌, ◌++◌,
  ◌≡◌, ap, nat_eq, string_eq, ◌<◌, not, length,
}
use gpu_share.Common.{storage, bail_if, ok, err, ◌>>◌, Result}

abbrev pub pack_path : List Name → List Name
pack_path dest = dest ++ codes ".gpumesh-outputs.gpk" ∷ []

-- `transfer_file_from_peer`, over what the connection gives: none while it waits.
unfoldable pub transfer_file_from_peer :
    Dest → List (Result (Option Message)) → List Name → Disk → Disk × Option (Result (List ℕ))
transfer_file_from_peer fs inbox local disk = elim (download_loop inbox 0 []) [
  | still_open ↦ (disk, none)
  | gave_up e ↦ (disk, some (err e))
  | fetched size bytes ↦ elim (fs.create_dir_all (parent local) >> fs.write local) [
    | err e ↦ (disk, some (err e))
    | ok _ ↦ (insert local bytes disk, some (ok bytes))
  ]
]

-- The package is removed only after it has been unpacked.
abbrev settle : List Name → Disk × Result PackageManifest → Disk × Option (Result (Unit {0}))
settle dest (after, err e) = (after, some (err e))
settle dest (after, ok m) = (remove (pack_path dest) after, some (ok tt))

abbrev unpack_fetched :
    Json PackageManifest
    → Dest
    → List Name
    → Disk × Option (Result (List ℕ))
    → Disk × Option (Result (Unit {0}))
unpack_fetched json fs dest (disk, none) = (disk, none)
unpack_fetched json fs dest (disk, some (err e)) = (disk, some (err e))
unpack_fetched json fs dest (disk, some (ok archive)) =
    settle dest (unpack_archive json fs archive dest disk)

unfoldable pub pull_job_outputs :
    Json PackageManifest
    → Dest
    → String
    → List Name
    → List (Result (Option Message))
    → Disk
    → Disk × Option (Result (Unit {0}))
unfolding transfer_file_from_peer
pull_job_outputs json fs job_id dest inbox disk =
    elim (bail_if (not (is_safe_job_id (codes job_id))) (storage "invalid job id")
      >> fs.create_dir_all dest) [
        | err e ↦ (disk, some (err e))
        | ok _ ↦
            unpack_fetched json fs dest (transfer_file_from_peer fs inbox (pack_path dest) disk)
      ]

-- A client that pulls the outputs that a provider packed and offers at the resolved path gets the
-- packed files, and no package is left, if the provider's manifest is short enough, every path is let
-- through and everything can be written.
pub pull_job_outputs-package_workdir :
    (w : Packing) (root : String) (m : PackageManifest) (archive man_bytes : List ℕ)
    (ps : List Packed) (provider : Files) (at_path : List Name → Readable) (in_work : Readable)
    (sha256 : List ℕ → String) (path id : String) (full : List Name) (fs : Dest) (dest : List Name)
    (job_id : String) (ws : List Written) (later : List (Result (Option Message))) (disk : Disk)
    → package_workdir w root ≡ ok (m, archive)
    → gather (w.walk is_kept) ≡ ok ps
    → w.json.to_vec m ≡ good man_bytes
    → length man_bytes < 2 ^ 32
    → resolve_download_path provider path ≡ ok full
    → at_path full ≡ some (ok archive)
    → is_safe_job_id (codes job_id) ≡ true
    → fs.create_dir_all dest ≡ ok tt
    → fs.create_dir_all (parent (pack_path dest)) ≡ ok tt
    → fs.write (pack_path dest) ≡ ok tt
    → Placed fs dest ps ws
    → pull_job_outputs w.json fs job_id dest
        (arrived (serve_download sha256 provider at_path in_work path id).0 ++ later)
        disk
      ≡ (
        remove (pack_path dest) (write_all ws (insert (pack_path dest) archive disk)),
        some (ok tt),
      )
unfolding pull_job_outputs transfer_file_from_peer
pull_job_outputs-package_workdir w root m archive man_bytes ps provider at_path in_work sha256 path
      id full fs dest job_id ws later disk h g j small r a safe made made' wrote placed =
    let got : download_loop
          (arrived (serve_download sha256 provider at_path in_work path id).0 ++ later) 0 []
        ≡ fetched (length archive) archive =
      (serve_download_lem sha256 provider at_path in_work path id later).0 full archive r a in
    let out : unpack_archive w.json fs archive dest (insert (pack_path dest) archive disk)
        ≡ (write_all ws (insert (pack_path dest) archive disk), ok m) =
      unpack_archive-package_workdir w fs root dest m archive man_bytes ps ws
        (insert (pack_path dest) archive disk) h g j small made placed in
    rw (safe, made, got, made', wrote, pull_job_outputs, transfer_file_from_peer)
      (ap (settle dest) out)
