-- ===== src/Server.antt =====
-- src/server_address.cpp: the address that people type to reach a server.
pub mod RoundTrip
use quick_logger.Prelude.{
  ℕ, zero, suc, ◌+◌, Bool, true, false, not, ◌&&◌, ◌||◌, [], ◌∷◌, ◌++◌, Option, none, some, ◌==◌,
  if◌then◌else◌, ltb, Bytes, codes, is_alnum, is_digit, is_empty, length, take_while, drop_while,
  trim_front, trim_back,
}
use quick_logger.Prelude.Decimal.{to_string, value_from}

pub record ServerAddress : Type 0 where
  pub host : Bytes
  pub port : ℕ

abbrev pub no_address : ServerAddress
no_address = record { host = []; port = 0 }

abbrev pub is_host_char : ℕ → Bool
is_host_char c = is_alnum c || c == b'.' || c == b'-' || c == b'_'

abbrev pub is_blank : ℕ → Bool
is_blank c = c == b' ' || c == b'\t'

unfoldable pub every : (ℕ → Bool) → Bytes → Bool
every p [] = true
every p (c ∷ cs) = p c && every p cs

-- The port behind the colon; `none` is `return false`.
unfoldable pub parse_port : Bytes → Option ℕ
unfolding every value_from
parse_port port_text =
    if is_empty port_text || ltb 5 (length port_text) || not (every is_digit port_text)
    then none
    else if ltb (value_from 0 port_text) 1 || ltb 65535 (value_from 0 port_text)
    then none
    else some (value_from 0 port_text)

unfoldable pub with_host : Bytes → Option ℕ → Option ServerAddress
unfolding every
with_host host none = none
with_host host (some port) =
    if every is_host_char host && not (ltb 253 (length host))
    then some (record { host = host; port = port })
    else none

-- What stands from the first colon on.
unfoldable pub port_part : Bytes → Option ℕ
unfolding parse_port
port_part [] = some 0
port_part (colon ∷ port_text) = parse_port port_text

abbrev pub not_colon : ℕ → Bool
not_colon c = not (c == b':')

unfoldable pub parse_trimmed : Bytes → Option ServerAddress
unfolding with_host port_part take_while drop_while
parse_trimmed trimmed =
    if is_empty trimmed
    then some no_address
    else with_host (take_while not_colon trimmed) (port_part (drop_while not_colon trimmed))

unfoldable pub parse_server_address : Bytes → Option ServerAddress
unfolding parse_trimmed trim_front trim_back
parse_server_address text = parse_trimmed (trim_back is_blank (trim_front is_blank text))

unfoldable pub format_server_address : ServerAddress → Bytes
format_server_address address =
    if address.port == 0 then address.host else address.host ++ b':' ∷ to_string address.port

-- `GuessServerHost` asks the system: it is the argument `guess`. `launched` is the port that the
-- server was started with.
unfoldable pub resolve_server_address : (Bytes → Bytes) → ℕ → Bytes → ℕ → Bytes → ServerAddress
resolve_server_address guess launched set_host set_port connected_to = record {
  host = if is_empty set_host then guess connected_to else set_host;
  port = if ltb 0 set_port then set_port else launched;
}
