-- ===== src/Command/Nets.antt =====
-- src/remote_command.cpp: the nets that a command may mean, and their order.
pub mod Found
pub mod Order
use quick_logger.Prelude.{
  ℕ, Bool, true, false, not, ◌&&◌, ◌||◌, List, [], ◌∷◌, ◌++◌, Option, none, some, ◌==◌,
  if◌then◌else◌, ltb, Bytes, codes, equal,
}
use quick_logger.Access.{Net, NetService, amateur, gmrs}
use quick_logger.Text.{to_upper_ascii}
use quick_logger.Text.NetName.{net_names_are_the_same}

abbrev pub same_service : NetService → NetService → Bool
same_service amateur amateur = true
same_service gmrs gmrs = true
same_service _ _ = false

unfoldable pub service_name : NetService → Bytes
service_name gmrs = codes "GMRS"
service_name amateur = codes "Amateur Radio"

unfoldable pub service_key : NetService → Bytes
service_key gmrs = codes "gmrs"
service_key amateur = codes "amateur"

-- The nets that pass a test, in the order of the list.
unfoldable pub nets_where : (Net → Bool) → List Net → List Net
nets_where test [] = []
nets_where test (net ∷ nets) =
    let rest = nets_where test nets in if test net then net ∷ rest else rest

unfoldable pub find_named : List Net → Bytes → Option Net
find_named [] name = none
find_named (net ∷ nets) name =
    if net_names_are_the_same net.name name then some net else find_named nets name

-- `left < right` of two strings.
unfoldable pub text_lt : Bytes → Bytes → Bool
text_lt left [] = false
text_lt [] (d ∷ right) = true
text_lt (c ∷ left) (d ∷ right) = ltb c d || (c == d && text_lt left right)

unfoldable pub compare_net_names : Net → Net → Bool
compare_net_names left right =
    if not (equal (to_upper_ascii left.name) (to_upper_ascii right.name))
    then text_lt (to_upper_ascii left.name) (to_upper_ascii right.name)
    else text_lt left.name right.name
