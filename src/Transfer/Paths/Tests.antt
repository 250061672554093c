-- ===== src/Transfer/Paths/Tests.antt =====
-- Runs of the path checks over a file system without links.
use gpu_share.Base.{codes, List, [], ◌∷◌, ◌≡◌, refl, nat_eq, string_eq}
use gpu_share.Common.{storage, ok, err}
use gpu_share.Transfer.Paths.{
  rest_components, is_safe_job_id, split, components, resolve_download_path, upload_dest, Name,
  Files,
}
use gpu_share.Transfer.Paths.Downloads.{resolve_download_path-DownloadPlace, DownloadPlace}

abbrev plain_files : Files
plain_files = record {
  jobs_dir = codes "jobs" ∷ [];
  incoming = codes "work" ∷ codes "incoming" ∷ [];
  create_dir_all = λ p. ok tt;
  canonicalize = λ p. ok p;
}

abbrev stored : List Name
stored = codes "work" ∷ codes "incoming" ∷ codes "a" ∷ codes "b.txt" ∷ []

escape_rejected :
    upload_dest plain_files "a/../../b" "t1"
    ≡ err (storage "unsafe upload path rejected: a/../../b")
unfolding upload_dest components split rest_components
escape_rejected = refl

abbrev job_outputs : List Name
job_outputs = codes "jobs" ∷ codes "j-1" ∷ codes "outputs.gpk" ∷ []

download_works : resolve_download_path plain_files "/jobs/j-1/outputs.gpk" ≡ ok job_outputs
unfolding resolve_download_path split is_safe_job_id
download_works = refl

resolve_download_path-DownloadPlace_example : DownloadPlace plain_files job_outputs
resolve_download_path-DownloadPlace_example =
    resolve_download_path-DownloadPlace plain_files "/jobs/j-1/outputs.gpk" job_outputs
      download_works
