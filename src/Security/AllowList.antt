-- ===== src/Security/AllowList.antt =====
-- `AllowList` of crates/gpumesh-security/src/lib.rs: who may run jobs, open desktops and remote
-- the GPU.
pub mod Grants
mod Tests
use gpu_share.Base.{string_eq, false, if◌then◌else◌, String, Bool, List, []}
use gpu_share.Base.Set

pub record AllowList : Type 0 where
  pub allowed : List String
  pub denied : List String
  pub desktop_allowed : List String
  pub gpu_remote_allowed : List String

abbrev pub default : AllowList
default = record { allowed = []; denied = []; desktop_allowed = []; gpu_remote_allowed = [] }

unfoldable pub is_allowed : AllowList → String → Bool
is_allowed l node_id =
    if Set.contains l.denied node_id then false else Set.contains l.allowed node_id

unfoldable pub is_desktop_allowed : AllowList → String → Bool
is_desktop_allowed l node_id =
    if Set.contains l.denied node_id then false else Set.contains l.desktop_allowed node_id

unfoldable pub is_gpu_remote_allowed : AllowList → String → Bool
is_gpu_remote_allowed l node_id =
    if Set.contains l.denied node_id then false else Set.contains l.gpu_remote_allowed node_id

unfoldable pub allow : AllowList → String → AllowList
allow l id = record l { denied = Set.remove id l.denied; allowed = Set.insert id l.allowed }

unfoldable pub allow_desktop : AllowList → String → AllowList
allow_desktop l id = record l {
  denied = Set.remove id l.denied;
  desktop_allowed = Set.insert id l.desktop_allowed;
  allowed = Set.insert id l.allowed;
}

unfoldable pub allow_gpu_remote : AllowList → String → AllowList
allow_gpu_remote l id = record l {
  denied = Set.remove id l.denied;
  gpu_remote_allowed = Set.insert id l.gpu_remote_allowed;
}

unfoldable pub deny : AllowList → String → AllowList
deny l id = record {
  allowed = Set.remove id l.allowed;
  desktop_allowed = Set.remove id l.desktop_allowed;
  gpu_remote_allowed = Set.remove id l.gpu_remote_allowed;
  denied = Set.insert id l.denied;
}
