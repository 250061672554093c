-- ===== src/Transfer/Tests.antt =====
-- Runs of an upload of three bytes that resumes after the first one.
use gpu_share.Transfer.Fetched.{download_loop-send_file_chunks}
use gpu_share.Network.Channel.{arrived}
use gpu_share.Transfer.Download.{fetched, send_file_chunks, download_loop}
use gpu_share.Protocol.{Message}
use gpu_share.Base.{
  ◌++◌, none, String, Option, list_eq, nat_eq, show, codes, List, [], ◌∷◌, ◌≡◌, nat_eq, string_eq,
  length,
}
use gpu_share.Common.{Result, ok}
use gpu_share.Base.Map
use gpu_share.Base.Map.{Map}
use gpu_share.Transfer.Paths.{Name, Files}
use gpu_share.Transfer.Uploads.{UploadState, Sha256}

abbrev plain_files : Files
plain_files = record {
  jobs_dir = codes "jobs" ∷ [];
  incoming = codes "incoming" ∷ [];
  create_dir_all = λ p. ok tt;
  canonicalize = λ p. ok p;
}

abbrev toy_sha : Sha256
toy_sha bytes = show (length bytes)

abbrev stored : List Name
stored = codes "incoming" ∷ codes "a" ∷ []

abbrev one_byte : UploadState
one_byte = record { uploads = []; disk = (codes "incoming" ∷ codes "a.partial" ∷ [], 7 ∷ []) ∷ [] }

abbrev debug : Option Message → String
debug reply = "message"

abbrev ending : List (Result (Option Message))
ending = ok none ∷ []

three_fetched :
    download_loop (arrived (send_file_chunks toy_sha "t1" "a" (7 ∷ 8 ∷ 9 ∷ [])) ++ ending) 0 []
    ≡ fetched 3 (7 ∷ 8 ∷ 9 ∷ [])
three_fetched = download_loop-send_file_chunks toy_sha "t1" "a" (7 ∷ 8 ∷ 9 ∷ []) ending
