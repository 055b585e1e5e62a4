-- ===== src/Server/RoundTrip.antt =====
-- `FormatServerAddress` and `ParseServerAddress` together.
use mathlib.Core.Path.{subst}
use quick_logger.Prelude.{
  ℕ, zero, suc, ◌≤◌, ◌<◌, ◌≡◌, ◌∙◌, refl, inl, inr, Bool, true, false, not, ◌&&◌, [], ◌∷◌, ◌++◌,
  none, some, some_inj, Option, and-true, arith, ◌==◌, Bool-cases, ltb, Bytes, is_digit, is_empty,
  length, take_while, drop_while, take_while-append, trim_front, trim_back, All, All-append,
  append-nil,
}
use quick_logger.Prelude.Trim.{trim_front_none, trim_back_none}
use quick_logger.Prelude.Decimal.{
  to_string, value_from-to_string, to_string-All, length-to_string, to_string-ne-nil,
}
use quick_logger.Server.{
  ServerAddress, is_host_char, is_blank, every, parse_port, with_host, port_part, not_colon,
  parse_trimmed, parse_server_address, format_server_address,
}

-- A host of at most 253 host characters, or none, and a port of 16 bits, or 0 for none.
pub record IsAddress (a : ServerAddress) : Type 0 where
  pub host_chars : All (λ c. is_host_char c ≡ true) a.host
  pub host_fits : length a.host ≤ 253
  pub port_fits : a.port < 65536

every-All : (p : ℕ → Bool) (cs : Bytes) → every p cs ≡ true → All (λ c. p c ≡ true) cs
unfolding every
every-All p [] h = tt
every-All p (c ∷ cs) h = let both = and-true (p c) (every p cs) h in (both.0, every-All p cs both.1)

All-every : (p : ℕ → Bool) (cs : Bytes) → All (λ c. p c ≡ true) cs → every p cs ≡ true
unfolding every
All-every p [] h = refl
All-every p (c ∷ cs) h = rw (h.0, All-every p cs h.1)

port_part-fits : (rest : Bytes) (port : ℕ) → port_part rest ≡ some port → port < 65536
unfolding port_part parse_port
port_part-fits [] port h = ground arith
port_part-fits (c ∷ cs) port h = ground arith

with_host-IsAddress :
    (host : Bytes) (port : Option ℕ) {a : ServerAddress}
    → ((p : ℕ) → port ≡ some p → p < 65536)
    → with_host host port ≡ some a
    → IsAddress a
unfolding with_host
with_host-IsAddress host none fits h = cc
with_host-IsAddress host (some port) fits h =
    elim (Bool-cases (every is_host_char host && not (ltb 253 (length host)))) [
      | inr other ↦ cc (rw other at h)
      | inl good ↦
          let tests = and-true (every is_host_char host) (not (ltb 253 (length host))) good in
          subst IsAddress (some_inj (rw good at h)) (record {
            host_chars = every-All is_host_char host tests.0;
            host_fits = ground (arith, tests.1);
            port_fits = fits port refl;
          })
    ]

-- If a text is read as a server address, its host has only host characters, 253 of them at most,
-- and its port is below 65536.
pub parse_server_address-IsAddress :
    (text : Bytes) {a : ServerAddress} → parse_server_address text ≡ some a → IsAddress a
unfolding parse_server_address
parse_server_address-IsAddress text {a} h =
    trimmed (trim_back is_blank (trim_front is_blank text)) h
  where
    trimmed : (t : Bytes) → parse_trimmed t ≡ some a → IsAddress a
    trimmed [] e =
        unfold parse_trimmed in
        subst IsAddress (some_inj e)
          (record { host_chars = tt; host_fits = omega arith; port_fits = omega arith })
    trimmed (c ∷ cs) e =
        unfold parse_trimmed in
        with_host-IsAddress (take_while not_colon (c ∷ cs))
          (port_part (drop_while not_colon (c ∷ cs)))
          (port_part-fits (drop_while not_colon (c ∷ cs))) e

host-not_colon :
    (host : Bytes) → All (λ c. is_host_char c ≡ true) host → All (λ c. not_colon c ≡ true) host
host-not_colon [] h = tt
host-not_colon (c ∷ cs) h = (ground arith, host-not_colon cs h.1)

host-not-is_blank :
    (host : Bytes) → All (λ c. is_host_char c ≡ true) host → All (λ c. is_blank c ≡ false) host
host-not-is_blank [] h = tt
host-not-is_blank (c ∷ cs) h = (ground arith, host-not-is_blank cs h.1)

digits-not-is_blank :
    (cs : Bytes) → All (λ c. is_digit c ≡ true) cs → All (λ c. is_blank c ≡ false) cs
digits-not-is_blank [] h = tt
digits-not-is_blank (c ∷ cs) h = (ground arith, digits-not-is_blank cs h.1)

parse_untrimmed :
    (text : Bytes)
    → All (λ c. is_blank c ≡ false) text
    → parse_server_address text ≡ parse_trimmed text
unfolding parse_server_address
parse_untrimmed text h = rw (trim_front_none is_blank text h) (rw (trim_back_none is_blank text h))

parse_port-to_string :
    (port : ℕ) → 0 < port → port < 65536 → parse_port (to_string port) ≡ some port
unfolding parse_port
parse_port-to_string port pos fits =
    rw
      (
        to_string-ne-nil port,
        All-every is_digit (to_string port) (to_string-All port),
        value_from-to_string port,
      )
      (ground (arith, length-to_string 4 port (omega arith)))

module _ (host : Bytes) (port : ℕ) (v : IsAddress (record { host = host; port = port })) where
  with_host_good : with_host host (some port) ≡ some (record { host = host; port = port })
  unfolding with_host
  with_host_good = rw (All-every is_host_char host v.host_chars) (ground (arith, v.host_fits))

  parse_with_port :
      0 < port
      → parse_trimmed (host ++ b':' ∷ to_string port) ≡ some (record { host = host; port = port })
  unfolding parse_trimmed
  parse_with_port pos =
      let split =
        take_while-append not_colon host (b':' ∷ to_string port) (host-not_colon host v.host_chars)
          refl in
      rw (full host) (
        rw (split.0, split.1)
          (unfold port_part in rw (parse_port-to_string port pos v.port_fits) with_host_good))
    where
      full : (xs : Bytes) → is_empty (xs ++ b':' ∷ to_string port) ≡ false
      full [] = refl
      full (x ∷ xs) = refl

parse_without_port :
    (host : Bytes)
    → IsAddress (record { host = host; port = 0 })
    → parse_trimmed host ≡ some (record { host = host; port = 0 })
unfolding parse_trimmed
parse_without_port [] v = refl
parse_without_port (c ∷ cs) v =
    let split =
      take_while-append not_colon (c ∷ cs) [] (host-not_colon (c ∷ cs) v.host_chars) refl in
    let whole = append-nil (c ∷ cs) in
    rw
      (
        subst (λ t. take_while not_colon t ≡ c ∷ cs) whole split.0,
        subst (λ t. drop_while not_colon t ≡ []) whole split.1,
      )
      (unfold port_part in with_host_good (c ∷ cs) 0 v)

format_round :
    (host : Bytes) (port : ℕ)
    → IsAddress (record { host = host; port = port })
    → parse_server_address (format_server_address (record { host = host; port = port }))
      ≡ some (record { host = host; port = port })
unfolding format_server_address
format_round host zero v =
    parse_untrimmed host (host-not-is_blank host v.host_chars) ∙ parse_without_port host v
format_round host (suc p) v =
    let some_port : (suc p == 0) ≡ false = ground arith in
    rw some_port (
      parse_untrimmed (host ++ b':' ∷ to_string (suc p)) (
        All-append _ host (b':' ∷ to_string (suc p)) (host-not-is_blank host v.host_chars)
          (refl, digits-not-is_blank (to_string (suc p)) (to_string-All (suc p))))
      ∙ parse_with_port host (suc p) v (omega arith))

-- The printed form of an address whose host has only host characters, 253 of them at most, and
-- whose port is below 65536 is read back as that address.
pub parse_server_address-format :
    (a : ServerAddress) → IsAddress a → parse_server_address (format_server_address a) ≡ some a
parse_server_address-format a v = format_round a.host a.port v
