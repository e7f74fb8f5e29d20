-- ===== src/Auth.antt =====
-- internal/auth/auth.go: who may use the interface. The system's user database is the argument
-- `Users`; a lookup that fails is `none`.
pub mod Access
use go_dhcpd.Base.{
  ℕ, Bool, true, false, List, [], ◌∷◌, Option, none, some, if◌then◌else◌, any, Text, text_eq, codes,
  Result, ok, err, unauthorized,
}

pub record Users : Type 0 where
  -- `user.Lookup` and `GroupIds`
  pub group_ids : Text → Option (List Text)
  -- the name of `user.LookupGroupId`
  pub group_name : Text → Option Text

abbrev pub is_named : List Text → Text → Bool
is_named names name = any (text_eq name) names

abbrev pub allowed_group : List Text → Option Text → Bool
allowed_group allowed none = false
allowed_group allowed (some name) = is_named allowed name

abbrev pub granted : Bool → Result (Unit {0})
granted true = ok tt
granted false = err unauthorized

module _ (users : Users) where
  -- The loop over the groups of the user.
  unfoldable pub any_group : List Text → List Text → Bool
  any_group allowed [] = false
  any_group allowed (gid ∷ gids) =
      if allowed_group allowed (users.group_name gid) then true else any_group allowed gids

  abbrev pub by_groups : List Text → Option (List Text) → Bool
  by_groups allowed none = false
  by_groups allowed (some gids) = any_group allowed gids

  abbrev pub if_groups : Text → List Text → Bool
  if_groups username [] = false
  if_groups username (g ∷ gs) = by_groups (g ∷ gs) (users.group_ids username)

  -- `Authorize`
  unfoldable pub authorize : Text → List Text → List Text → Result (Unit {0})
  authorize username allowed_users allowed_groups = granted (
      if text_eq username (codes "root")
      then true
      else if is_named allowed_users username
      then true
      else if_groups username allowed_groups)

-- What the middleware of internal/api/api.go does with a request: it goes on as the user, or it is
-- answered with the status.
pub data Verdict : Type 0 where
  passed : Text → Verdict
  status : ℕ → Verdict

abbrev pub after_authorize : Text → Result (Unit {0}) → Verdict
after_authorize username (ok u) = passed username
after_authorize username (err e) = status 403

-- `authMiddleware`, on the credentials of the request and the answer of PAM.
unfoldable pub auth_middleware :
    Users → (Text → Text → Bool) → List Text → List Text → Option (Text × Text) → Verdict
auth_middleware users authenticate allowed_users allowed_groups none = status 401
auth_middleware users authenticate allowed_users allowed_groups (some (username, password)) =
    if authenticate username password
    then after_authorize username (authorize users username allowed_users allowed_groups)
    else status 401
