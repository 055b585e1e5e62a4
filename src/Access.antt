-- ===== src/Access.antt =====
-- src/access.cpp and src/access.hpp: what a user may do on a net.
pub mod Power
use quick_logger.Prelude.{
  ℕ, ◌≤◌, Bool, true, false, not, ◌&&◌, ◌||◌, List, [], ◌∷◌, ◌++◌, Option, none, some, ◌==◌,
  if◌then◌else◌, leb, Bytes, codes, is_empty,
}

-- `kAccessUser`, `kAccessNetAdmin` and `kAccessAdmin`. Negative levels are not modelled.
abbrev pub access_user : ℕ
access_user = 0

abbrev pub access_net_admin : ℕ
access_net_admin = 1

abbrev pub access_admin : ℕ
access_admin = 2

pub data NetPower : Type 0 where
  watch log manage : NetPower

pub data NetService : Type 0 where
  amateur gmrs : NetService

-- The fields of `Net` that the rules and the remote commands read.
pub record Net : Type 0 where
  pub id : ℕ
  pub name : Bytes
  pub service : NetService
  pub is_ad_hoc : Bool

pub record UserAccess : Type 0 where
  pub username : Bytes
  pub console : Bool
  pub view_only : Bool
  pub level : ℕ
  pub restricted : Bool
  pub grants : List ℕ

unfoldable pub is_admin : UserAccess → Bool
is_admin access = access.console || leb access_admin access.level

unfoldable pub is_net_admin : UserAccess → Bool
is_net_admin access = access.console || leb access_net_admin access.level

unfoldable pub contains : List ℕ → ℕ → Bool
contains [] id = false
contains (g ∷ rest) id = g == id || contains rest id

unfoldable pub is_granted : UserAccess → ℕ → Bool
is_granted access net_id = contains access.grants net_id

unfoldable pub power_on : UserAccess → Net → NetPower
power_on access net =
    if access.view_only
    then watch
    else if is_admin access || net.is_ad_hoc || not access.restricted
    then manage
    else if not (is_granted access net.id)
    then watch
    else if is_net_admin access
    then manage
    else log

unfoldable pub can_create_nets : UserAccess → Bool
can_create_nets access = not access.view_only && (not access.restricted || is_net_admin access)

unfoldable pub can_grant : UserAccess → Net → ℕ → Bool
can_grant access net target_level =
    if access.view_only || net.is_ad_hoc
    then false
    else if is_admin access
    then target_level == access_user || target_level == access_net_admin
    else access.level == access_net_admin && is_granted access net.id && target_level == access_user

unfoldable pub has_any_grant : UserAccess → Bool
has_any_grant access = not (is_empty access.grants)

-- What `LoadUserAccess` asks of the database, in one read transaction.
pub record AccessRows : Type 0 where
  pub restricted_nets : Bool
  pub view_only_of : Bytes → Bool
  pub level_of : Bytes → ℕ
  pub grants_of : Bytes → List ℕ

-- `none` is a null `db`.
unfoldable pub load_user_access : Option AccessRows → Bytes → UserAccess
load_user_access none username = record {
  username = username;
  console = is_empty username;
  view_only = false;
  level = access_user;
  restricted = false;
  grants = [];
}
load_user_access (some db) username =
    if is_empty username
    then record {
      username = username;
      console = true;
      view_only = false;
      level = access_admin;
      restricted = db.restricted_nets;
      grants = [];
    }
    else record {
      username = username;
      console = false;
      view_only = db.view_only_of username;
      level = db.level_of username;
      restricted = db.restricted_nets;
      grants = db.grants_of username;
    }

unfoldable pub net_power_refusal : NetPower → Bytes → Bytes → Bytes
net_power_refusal manage net_name what = codes "Only Net Admins can " ++ what ++ codes "."
net_power_refusal _ net_name what =
    (if is_empty net_name then codes "That net" else net_name) ++ codes " isn't one of your nets."
