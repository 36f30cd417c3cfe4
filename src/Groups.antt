-- ===== src/Groups.antt =====
-- host/internal/groups/lookup.go: the role of a user, by Unix groups.
use pispot.Base.{
  ◌≡◌, Bool, true, false, ◌||◌, Option, none, some, List, [], ◌∷◌, ◌++◌, if◌then◌else◌, arith,
}
use pispot.Go.Bytes.{Bytes, lit, equal}
use pispot.Go.Quote.{quote}
use pispot.Go.Unicode.{Unicode}
use pispot.Result.{Result, ok, err}

pub record Config : Type 0 where
  pub readonly_group : Bytes
  pub admin_group : Bytes

-- Package os/user, over the name service of the host: user.Lookup with the identifier of the user,
-- GroupIds, and the name that user.LookupGroupId gives, if it succeeds.
pub record Names : Type 0 where
  pub lookup : Bytes → Result Bytes
  pub group_ids : Bytes → Result (List Bytes)
  pub group_name : Bytes → Option Bytes

-- The results of `Resolve`: the role "admin" or "readonly", ErrNotAuthorized, or another error.
pub data Resolution : Type 0 where
  role : Bytes → Resolution
  not_authorized : Resolution
  lookup_failed : Bytes → Resolution

-- The two flags of the loop, `inReadonly` and `inAdmin`.
pub record Membership : Type 0 where
  pub in_readonly : Bool
  pub in_admin : Bool

mark : Config → Option Bytes → Membership → Membership
mark cfg none m = m
mark cfg (some name) m =
    if equal name cfg.admin_group
    then record m { in_admin = true }
    else if equal name cfg.readonly_group
    then record m { in_readonly = true }
    else m

memberships : Names → Config → Membership → List Bytes → Membership
memberships names cfg m [] = m
memberships names cfg m (gid ∷ gids) =
    memberships names cfg (mark cfg (names.group_name gid) m) gids

-- The last switch.
role_of : Membership → Resolution
role_of m =
    if m.in_admin
    then role (lit "admin")
    else if m.in_readonly
    then role (lit "readonly")
    else not_authorized

resolve_groups : Unicode → Names → Config → Bytes → Result (List Bytes) → Resolution
resolve_groups u names cfg username (err e) =
    lookup_failed (lit "group ids for " ++ (quote u username ++ (lit ": " ++ e)))
resolve_groups u names cfg username (ok gids) =
    role_of (memberships names cfg (record { in_readonly = false; in_admin = false }) gids)

resolve_user : Unicode → Names → Config → Bytes → Result Bytes → Resolution
resolve_user u names cfg username (err e) =
    lookup_failed (lit "user lookup " ++ (quote u username ++ (lit ": " ++ e)))
resolve_user u names cfg username (ok uid) =
    resolve_groups u names cfg username (names.group_ids uid)

unfoldable pub resolve : Unicode → Names → Config → Bytes → Resolution
unfolding mark memberships role_of resolve_groups resolve_user
resolve u names cfg username = resolve_user u names cfg username (names.lookup username)

-- One of the groups has the name.
abbrev named : Option Bytes → Bytes → Bool
named none group = false
named (some name) group = equal name group

pub belongs : Names → Bytes → List Bytes → Bool
belongs names group [] = false
belongs names group (gid ∷ gids) = named (names.group_name gid) group || belongs names group gids

-- The role by membership alone: "admin" wins over "readonly".
pub expected : Names → Config → List Bytes → Resolution
expected names cfg gids =
    if belongs names cfg.admin_group gids
    then role (lit "admin")
    else if belongs names cfg.readonly_group gids
    then role (lit "readonly")
    else not_authorized

memberships-admin :
    (names : Names) (cfg : Config) (m : Membership) (gids : List Bytes)
    → (memberships names cfg m gids).in_admin ≡ m.in_admin || belongs names cfg.admin_group gids
unfolding memberships mark belongs
memberships-admin names cfg m [] = ground arith
memberships-admin names cfg m (gid ∷ gids) =
    ground (arith, memberships-admin names cfg (mark cfg (names.group_name gid) m) gids)

memberships-readonly :
    (names : Names) (cfg : Config) (m : Membership) (gids : List Bytes)
    → belongs names cfg.admin_group gids ≡ false
    → (memberships names cfg m gids).in_readonly
      ≡ m.in_readonly || belongs names cfg.readonly_group gids
unfolding memberships mark belongs
memberships-readonly names cfg m [] h = ground arith
memberships-readonly names cfg m (gid ∷ gids) h =
    ground (arith, memberships-readonly names cfg (mark cfg (names.group_name gid) m) gids)

-- For a user whose groups are known: "admin" if one of them has the name of the admin group,
-- otherwise "readonly" if one has that of the readonly group, otherwise not authorized; groups
-- without a name count for nothing.
pub resolve-expected :
    (u : Unicode) (names : Names) (cfg : Config) (username uid : Bytes) (gids : List Bytes)
    → names.lookup username ≡ ok uid
    → names.group_ids uid ≡ ok gids
    → resolve u names cfg username ≡ expected names cfg gids
unfolding resolve expected
resolve-expected u names cfg username uid gids known listed =
    rw (known, listed)
      (ground (
        arith,
        memberships-admin names cfg (record { in_readonly = false; in_admin = false }) gids,
        memberships-readonly names cfg (record { in_readonly = false; in_admin = false }) gids,
      ))
