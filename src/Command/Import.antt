-- ===== src/Command/Import.antt =====
-- src/remote_command.cpp: what SessionImport and NetImport share: the fields of their answers, the nets
-- on the slice's service, and what the user may do.
use quick_logger.Prelude.{
  ℕ, Bool, true, false, not, ◌&&◌, ◌||◌, [], ◌∷◌, ◌++◌, Option, none, some, Bytes, codes,
}
use quick_logger.Access.{Net, NetPower, watch, log, UserAccess, power_on, net_power_refusal}
use quick_logger.Text.NetName.{net_names_are_the_same, net_names_look_alike}
use quick_logger.Command.Answer.{RemoteCommandResult, RemoteResultFields, make_result}
use quick_logger.Command.Nets.{same_service}
use quick_logger.Command.Store.{NetSlice}

abbrev pub no_fields : RemoteResultFields
no_fields = record {
  status = [];
  net = [];
  has_net = false;
  net_id = 0;
  session = [];
  has_counts = false;
  new_sessions = 0;
  new_saved_stations = 0;
  differing_sessions = 0;
  message = [];
}

abbrev pub set_net : Net → RemoteResultFields → RemoteResultFields
set_net net fields = record fields { has_net = true; net = net.name; net_id = net.id }

-- `Finish`.
unfoldable pub finish_answer : RemoteResultFields → Bytes → Bytes → ℕ → RemoteCommandResult
finish_answer fields status message exit_status =
    make_result (record fields { status = status; message = message }) exit_status

abbrev pub quoted_name : Bytes → Bytes
quoted_name name = b'"' ∷ (name ++ b'"' ∷ [])

abbrev pub is_power_to_log : NetPower → Bool
is_power_to_log watch = false
is_power_to_log _ = true

-- `MayLog`; `none` is a null `access_`.
unfoldable pub may_log : Option UserAccess → Net → Bool
may_log none net = true
may_log (some access) net = is_power_to_log (power_on access net)

unfoldable pub is_alike : NetSlice → Net → Bool
is_alike slice net =
    net_names_are_the_same net.name slice.net.name
    || net_names_look_alike slice.net.name net.name false

-- The recurring nets on the slice's service, and on another.
abbrev pub is_recurring : NetSlice → Net → Bool
is_recurring slice net = not net.is_ad_hoc && same_service net.service slice.net.service

abbrev pub is_elsewhere : NetSlice → Net → Bool
is_elsewhere slice net = not net.is_ad_hoc && not (same_service net.service slice.net.service)

-- A net to ask about.
unfoldable pub is_offered : Option UserAccess → NetSlice → Net → Bool
is_offered access slice net =
    may_log access net && net_names_look_alike slice.net.name net.name false

unfoldable pub not_yours : RemoteResultFields → Net → RemoteCommandResult
not_yours fields net =
    finish_answer (set_net net fields) (codes "refused") (net_power_refusal log net.name []) 4

unfoldable pub not_named : RemoteResultFields → Bytes → RemoteCommandResult
not_named fields name =
    finish_answer fields (codes "no-match")
      (codes "No net here is named " ++ quoted_name name ++ codes ".") 3
