-- ===== src/Node/Toy.antt =====
-- The surroundings of toy nodes, in which every file can be written and no pairing code can be, and
-- nodes at rest.
use gpu_share.Storage.Peers.{Peers}
use gpu_share.Security.Crypto.{from_seed, NodeIdentity}
use gpu_share.Base.{replicate, ℕ, false, none, List, [], ◌∷◌, ◌≡◌, nat_eq, string_eq}
use gpu_share.Common.{default_config, ok}
use gpu_share.Node.{Env, MeshNode, Saved, missing, holds}
use gpu_share.Security.AllowList.{AllowList}
use gpu_share.Base.Int.{pos}
use gpu_share.Security.Pairing.{PairingPayload}
use gpu_share.Base.{good, bad, Json, ℕ, List, [], ◌∷◌, ◌≡◌, nat_eq, string_eq}
use gpu_share.Common.{ok}
use gpu_share.Node.{Env}
use gpu_share.Security.Crypto.Toy.{toy_crypto}
use gpu_share.Protocol.{ProtocolHello}

abbrev pub to_vec : ProtocolHello → List ℕ
to_vec h = h.major ∷ h.minor ∷ []

pub unread :
    (p : PairingPayload) (bytes : List ℕ)
    → bad "no payload" ≡ good bytes
    → bad "no payload" ≡ good p
unread p bytes h = cc

abbrev pub json : Json PairingPayload
json = record {
  to_vec = λ p. bad "no payload";
  from_slice = λ b. bad "no payload";
  from_slice-to_vec = unread;
}

abbrev pub env : Env
env = record {
  now = pos 1300;
  hostname = "host";
  gpus = ok [];
  crypto = toy_crypto;
  hello_bytes = to_vec;
  listing_bytes = λ l. [];
  unannounce_bytes = λ l. [];
  pairing_json = json;
  ensure_dirs = ok tt;
  write_config = ok tt;
  write_allowlist = ok tt;
  write_peers = ok tt;
  debug = λ m. "message";
  parse_size_to_mb = λ s. ok 0;
  compute_perf_score = λ a b c. 0;
}

abbrev pub bob : NodeIdentity
bob = from_seed toy_crypto (2 ∷ replicate 31 0)

abbrev pub files : NodeIdentity → AllowList → Peers → Saved
files id l peers = record {
  identity = holds id;
  config = missing;
  allowlist = holds l;
  peers = holds peers;
}

abbrev pub at_rest : NodeIdentity → AllowList → Peers → MeshNode
at_rest id l peers = record {
  identity = id;
  config = default_config "host";
  allowlist = l;
  peers = peers;
  active = [];
  endpoint = none;
  lan = none;
  sharing = false;
  sharing_since = none;
  desktop_sharing = false;
  cuda_remote_sharing = false;
  saved = files id l peers;
}
