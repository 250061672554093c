-- ===== src/Security/AllowList/Tests.antt =====
-- Runs of the allow list.
use gpu_share.Base.Set
use gpu_share.Security.AllowList.{
  allow, is_desktop_allowed, deny, allow_gpu_remote, is_allowed, is_gpu_remote_allowed, default,
}
use gpu_share.Security.AllowList.Grants.{
  Decision, allows, allows_gpu_remote, denies, decide_all, access-decide_all, grant_all, view,
}
use gpu_share.Base.{true, [], ◌∷◌, false, if◌then◌else◌, List, ◌≡◌, refl}

abbrev remote_only : List Decision
remote_only = allows "b" ∷ allows_gpu_remote "a" ∷ denies "b" ∷ []

remote_only_works : is_gpu_remote_allowed (decide_all default remote_only) "a" ≡ true
unfolding decide_all is_gpu_remote_allowed allow_gpu_remote deny allow Set.contains Set.remove
    Set.insert
remote_only_works = refl

access-decide_all_example :
    let g = grant_all "b" (view default "b") remote_only in
    (is_allowed (decide_all default remote_only) "b" ≡ (if g.hidden then false else g.jobs))
    × (is_desktop_allowed (decide_all default remote_only) "b"
        ≡ (if g.hidden then false else g.desktop))
    × (is_gpu_remote_allowed (decide_all default remote_only) "b"
        ≡ (if g.hidden then false else g.gpu_remote))
access-decide_all_example = access-decide_all default "b" remote_only
