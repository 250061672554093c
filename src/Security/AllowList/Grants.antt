-- ===== src/Security/AllowList/Grants.antt =====
-- Sequences of decisions of the host on the `AllowList` of crates/gpumesh-security/src/lib.rs.
use gpu_share.Base.{
  any, String, ◌≡◌, refl, Bool, true, false, List, [], ◌∷◌, ◌==◌, string_eq, if◌then◌else◌, arith,
}
use gpu_share.Base.Set
use gpu_share.Base.Set.{contains-insert, contains-remove}
use gpu_share.Security.AllowList.{
  AllowList, default, is_allowed, is_desktop_allowed, is_gpu_remote_allowed, allow, allow_desktop,
  allow_gpu_remote, deny,
}

pub data Decision : Type 0 where
  allows allows_desktop allows_gpu_remote denies : String → Decision

unfoldable pub decide_one : AllowList → Decision → AllowList
decide_one l (allows id) = allow l id
decide_one l (allows_desktop id) = allow_desktop l id
decide_one l (allows_gpu_remote id) = allow_gpu_remote l id
decide_one l (denies id) = deny l id

unfoldable pub decide_all : AllowList → List Decision → AllowList
unfolding decide_one
decide_all l [] = l
decide_all l (d ∷ ds) = decide_all (decide_one l d) ds

-- The abstract view of one node: what it holds, and whether a denial hides it.
pub record Grants : Type 0 where
  pub jobs : Bool
  pub desktop : Bool
  pub gpu_remote : Bool
  pub hidden : Bool

abbrev pub no_grants : Grants
no_grants = record { jobs = false; desktop = false; gpu_remote = false; hidden = false }

-- A grant lifts the denial, and desktop access brings job access; a denial revokes everything.
unfoldable pub grant_one : String → Grants → Decision → Grants
grant_one n g (allows id) = if id == n then record g { jobs = true; hidden = false } else g
grant_one n g (allows_desktop id) =
    if id == n then record g { desktop = true; jobs = true; hidden = false } else g
grant_one n g (allows_gpu_remote id) =
    if id == n then record g { gpu_remote = true; hidden = false } else g
grant_one n g (denies id) =
    if id == n
    then record { jobs = false; desktop = false; gpu_remote = false; hidden = true }
    else g

unfoldable pub grant_all : String → Grants → List Decision → Grants
unfolding grant_one
grant_all n g [] = g
grant_all n g (d ∷ ds) = grant_all n (grant_one n g d) ds

unfoldable pub view : AllowList → String → Grants
view l n = record {
  jobs = Set.contains l.allowed n;
  desktop = Set.contains l.desktop_allowed n;
  gpu_remote = Set.contains l.gpu_remote_allowed n;
  hidden = Set.contains l.denied n;
}

view-decide_one :
    (l : AllowList) (n : String) (d : Decision) → view (decide_one l d) n ≡ grant_one n (view l n) d
unfolding view decide_one grant_one allow allow_desktop allow_gpu_remote deny
view-decide_one l n (allows id) =
    ground (arith, contains-insert id n l.allowed, contains-remove id n l.denied)
view-decide_one l n (allows_desktop id) = ground (
  arith,
  contains-insert id n l.allowed,
  contains-insert id n l.desktop_allowed,
  contains-remove id n l.denied,
)
view-decide_one l n (allows_gpu_remote id) =
    ground (arith, contains-insert id n l.gpu_remote_allowed, contains-remove id n l.denied)
view-decide_one l n (denies id) = ground (
  arith,
  contains-remove id n l.allowed,
  contains-remove id n l.desktop_allowed,
  contains-remove id n l.gpu_remote_allowed,
  contains-insert id n l.denied,
)

view-decide_all :
    (l : AllowList) (n : String) (ds : List Decision)
    → view (decide_all l ds) n ≡ grant_all n (view l n) ds
unfolding decide_all grant_all
view-decide_all l n [] = refl
view-decide_all l n (d ∷ ds) = rw (view-decide_all (decide_one l d) n ds, view-decide_one l n d)

-- Whatever the list was and whatever the host decided since, the three checks answer for a node
-- what the decisions about that node alone leave it: decisions about other nodes do not matter.
pub access-decide_all :
    (l : AllowList) (n : String) (ds : List Decision)
    → let g = grant_all n (view l n) ds in
      (is_allowed (decide_all l ds) n ≡ (if g.hidden then false else g.jobs))
      × (is_desktop_allowed (decide_all l ds) n ≡ (if g.hidden then false else g.desktop))
      × (is_gpu_remote_allowed (decide_all l ds) n ≡ (if g.hidden then false else g.gpu_remote))
unfolding is_allowed is_desktop_allowed is_gpu_remote_allowed
access-decide_all l n ds = rw (← view-decide_all l n ds) (unfold view in (refl, refl, refl))

abbrev pub grants_jobs : String → Decision → Bool
grants_jobs n (allows id) = id == n
grants_jobs n (allows_desktop id) = id == n
grants_jobs n _ = false

no_jobs :
    (n : String) (g : Grants) (ds : List Decision)
    → g.jobs ≡ false
    → any (grants_jobs n) ds ≡ false
    → (grant_all n g ds).jobs ≡ false
unfolding grant_all grant_one
no_jobs n g [] h no_grant = h
no_jobs n g (d ∷ ds) h no_grant = no_jobs n (grant_one n g d) ds (one d no_grant) (rest d no_grant)
  where
    one : (d : Decision) → any (grants_jobs n) (d ∷ ds) ≡ false → (grant_one n g d).jobs ≡ false
    one (allows id) k = ground arith
    one (allows_desktop id) k = ground arith
    one (allows_gpu_remote id) k = ground arith
    one (denies id) k = ground arith

    rest : (d : Decision) → any (grants_jobs n) (d ∷ ds) ≡ false → any (grants_jobs n) ds ≡ false
    rest d k = ground arith

-- Default deny: from an empty list, a node that was never allowed, nor allowed a desktop, may not
-- run jobs, whatever else was decided. In particular GPU remoting does not bring job access.
pub jobs_need_allow :
    (n : String) (ds : List Decision)
    → any (grants_jobs n) ds ≡ false
    → is_allowed (decide_all default ds) n ≡ false
jobs_need_allow n ds h = ground (
  arith,
  (access-decide_all default n ds).0,
  no_jobs n (view default n) ds (unfold view Set.contains in refl) h,
)
