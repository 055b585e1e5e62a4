-- ===== src/Access/Power.antt =====
-- How the powers follow from the levels and grants.
use quick_logger.Prelude.{ℕ, ◌≤◌, ◌<◌, ◌≡◌, ◌⊎◌, true, [], Option, none, some, arith}
use quick_logger.Access.{
  access_admin, NetPower, watch, log, manage, Net, UserAccess, is_admin, is_net_admin, contains,
  is_granted, power_on, can_create_nets, can_grant, AccessRows, load_user_access,
}

-- The powers in order.
abbrev pub rank : NetPower → ℕ
rank watch = 0
rank log = 1
rank manage = 2

-- Whoever may give a net to a user of some level may do everything on that net, and that level is
-- below Admin and, unless the giver is an Admin, below the giver's.
pub can_grant-power_on :
    (access : UserAccess) (net : Net) (target_level : ℕ)
    → can_grant access net target_level ≡ true
    → (power_on access net ≡ manage)
      × (target_level < access_admin)
      × ((is_admin access ≡ true) ⊎ (target_level < access.level))
unfolding can_grant power_on is_admin is_net_admin
can_grant-power_on access net target_level h = ground arith

-- One user has at least the rights of the other.
pub record IsAbove (low high : UserAccess) : Type 0 where
  pub sees : high.view_only ≡ true → low.view_only ≡ true
  pub console : low.console ≡ true → high.console ≡ true
  pub level : low.level ≤ high.level
  pub restricted : low.restricted ≡ high.restricted
  pub grants : (id : ℕ) → contains low.grants id ≡ true → contains high.grants id ≡ true

-- A user has at least the power on a net that another has whose level is no higher, who has no
-- grant the first lacks, is the console only if the first is, and is view-only if the first is,
-- under the same restricted option.
pub power_on_mono :
    (low high : UserAccess) (net : Net)
    → IsAbove low high
    → rank (power_on low net) ≤ rank (power_on high net)
unfolding power_on is_admin is_net_admin is_granted
power_on_mono low high net above =
    let granted = above.grants net.id in
    ground (arith, above.sees, above.console, above.level, above.restricted, granted)

-- The console may do everything, on any net, and create nets.
pub load_user_access-console :
    (db : Option AccessRows) (net : Net)
    → (power_on (load_user_access db []) net ≡ manage)
      × (can_create_nets (load_user_access db []) ≡ true)
unfolding load_user_access power_on can_create_nets is_admin is_net_admin
load_user_access-console none net = ground arith
load_user_access-console (some db) net = ground arith
