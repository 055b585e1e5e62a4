-- ===== src/Tests/People.antt =====
-- Call signs, names, codes and what users may do.
use quick_logger.Prelude.{
  ◌<◌, ◌≡◌, ◌⊎◌, ◌↔◌, refl, true, false, [], ◌∷◌, some, none, arith, codes, equal, split_on,
  push_char, take_while, drop_while,
}
use quick_logger.Callsign.{
  CallsignParts, split_callsign, base_callsign, is_valid_callsign, is_base_callsign,
  is_valid_gmrs_callsign, valid_pieces, base_parts, is_us_callsign, is_us_prefix,
  is_canadian_callsign, is_canadian_prefix, prefix_in, has_byte, parts_of, unread,
  is_location_prefix, location_parts, is_trailing_indicator, all_upper,
}
use quick_logger.Callsign.Shape.{IsShape, split_callsign_iff}
use quick_logger.Callsign.Base.{base_callsign_valid}
use quick_logger.Callsign.Grammar.{IsCall, is_valid_callsign-IsCall}
use quick_logger.Access.{
  amateur, manage, Net, UserAccess, power_on, can_grant, can_create_nets, load_user_access,
  is_admin, is_granted, contains, access_admin,
}
use quick_logger.Access.Power.{IsAbove, can_grant-power_on, load_user_access-console}

abbrev parts : CallsignParts
parts = record { letters = codes "W"; digits = codes "4"; suffix = codes "KWK" }

split_callsign_iff_example :
    (split_callsign (codes "W4KWK") ≡ some parts) ↔ IsShape (codes "W4KWK") parts
split_callsign_iff_example = split_callsign_iff (codes "W4KWK") parts

portable : is_valid_callsign (codes "VE3/W4KWK") ≡ true
unfolding is_valid_callsign valid_pieces is_base_callsign base_parts is_us_callsign is_us_prefix
    is_canadian_callsign is_canadian_prefix prefix_in has_byte split_callsign parts_of unread
    is_location_prefix location_parts is_trailing_indicator all_upper equal split_on push_char
    take_while drop_while
portable = refl

base_callsign_valid_example :
    (is_base_callsign (base_callsign (codes "VE3/W4KWK")) ≡ true)
    × (is_valid_callsign (base_callsign (codes "VE3/W4KWK")) ≡ true)
    × (base_callsign (base_callsign (codes "VE3/W4KWK")) ≡ base_callsign (codes "VE3/W4KWK"))
base_callsign_valid_example = base_callsign_valid (codes "VE3/W4KWK") portable

is_valid_callsign-IsCall_example :
    (is_valid_callsign (codes "VE3/W4KWK") ≡ true) ↔ IsCall (codes "VE3/W4KWK")
is_valid_callsign-IsCall_example = is_valid_callsign-IsCall (codes "VE3/W4KWK")

gmrs : is_valid_gmrs_callsign (codes "WRXY123") ≡ true
unfolding is_valid_gmrs_callsign equal
gmrs = refl

abbrev net_admin : UserAccess
net_admin = record {
  username = codes "ann";
  console = false;
  view_only = false;
  level = 1;
  restricted = true;
  grants = 7 ∷ [];
}

abbrev user : UserAccess
user = record {
  username = codes "bob";
  console = false;
  view_only = false;
  level = 0;
  restricted = true;
  grants = 7 ∷ [];
}

abbrev weekly : Net
weekly = record { id = 7; name = codes "Weekly"; service = amateur; is_ad_hoc = false }

may_grant : can_grant net_admin weekly 0 ≡ true
unfolding can_grant is_admin is_granted contains
may_grant = refl

can_grant-power_on_example :
    (power_on net_admin weekly ≡ manage)
    × (0 < access_admin)
    × ((is_admin net_admin ≡ true) ⊎ (0 < 1))
can_grant-power_on_example = can_grant-power_on net_admin weekly 0 may_grant

promoted : IsAbove user net_admin
promoted = record {
  sees = λ e. e;
  console = λ e. e;
  level = omega arith;
  restricted = refl;
  grants = λ id e. e;
}

load_user_access-console_example :
    (power_on (load_user_access none []) weekly ≡ manage)
    × (can_create_nets (load_user_access none []) ≡ true)
load_user_access-console_example = load_user_access-console none weekly
