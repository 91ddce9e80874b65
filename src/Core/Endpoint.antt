-- ===== src/Core/Endpoint.antt =====
-- src/core/endpoint.hpp and src/core/endpoint.cpp: a host and a port.
pub mod RoundTrip
use dariyanaap.Prelude.{
  ℕ, zero, suc, ◌+◌, ◌-◌, ◌*◌, List, [], ◌∷◌, ◌++◌, Option, none, some, map, Bool, true, false, not,
  ◌||◌, ltb, ◌==◌, if◌then◌else◌, take, drop,
}
use mathlib.Core.Option
use dariyanaap.Prelude.Text.{Bytes, codes, is_empty, contains, is_digit, to_string}
use dariyanaap.Core.Errors.{Error, Result, ok, err, invalid_endpoint, ◌>>=◌, ◌>>◌, throw_if}

-- Only the constructor below makes one.
pub record Endpoint : Type 0 where
  pub host : Bytes
  pub port : ℕ

-- The constructor. The dash in its second message is the three bytes of an em dash.
unfoldable pub endpoint : Bytes → ℕ → Result Endpoint
endpoint host port = do
  throw_if (is_empty host) (invalid_endpoint (codes "endpoint host must not be empty"))
  throw_if (contains host b'[' || contains host b']') (
      invalid_endpoint (
        codes "endpoint host must not contain brackets, got \""
        ++ (host
            ++ (codes "\" "
                ++ (226 ∷ 128 ∷ 148 ∷ codes " use Endpoint::parse for \"[::1]:8080\" form")))))
  throw_if (port == 0)
      (invalid_endpoint (codes "endpoint port must not be zero, for host " ++ host))
  ok (record { host = host; port = port })

unfoldable pub reject : Bytes → Bytes → Error
reject text why =
    invalid_endpoint (codes "cannot parse endpoint \"" ++ (text ++ (codes "\": " ++ why)))

-- The loop over the digits. The value is at most 65535 before each round, so that `uint32_t` is
-- wide enough.
unfoldable pub port_digits : Bytes → ℕ → Bytes → Result ℕ
unfolding reject
port_digits [] port whole = ok port
port_digits (c ∷ text) port whole =
    let longer = port * 10 + (c - b'0') in
    let rest = port_digits text longer whole in
    if not (is_digit c)
    then err (reject whole (codes "port must be decimal digits, found '" ++ (c ∷ codes "'")))
    else if ltb 65535 longer
    then err (reject whole (codes "port must be at most 65535"))
    else rest

unfoldable pub parse_port : Bytes → Bytes → Result ℕ
unfolding reject
parse_port text whole =
    if is_empty text then err (reject whole (codes "port is missing")) else port_digits text 0 whole

-- `text.find(c)` and `text.rfind(c)` for one byte; none is `npos`.
unfoldable pub find_byte : ℕ → Bytes → Option ℕ
find_byte b [] = none
find_byte b (c ∷ text) =
    let later = Option.map suc (find_byte b text) in if c == b then some 0 else later

unfoldable pub rfind_byte : ℕ → Bytes → Option ℕ
rfind_byte b [] = none
rfind_byte b (c ∷ text) = elim (rfind_byte b text) [
  | some i ↦ some (suc i)
  | none ↦ if c == b then some 0 else none
]

abbrev pub is_invalid : ℕ → Bool
is_invalid c = c == 32 || (c == 9 || (c == b'/' || (c == 92 || (c == 64 || c == 63))))

-- The loop over the host's characters.
unfoldable pub check_host : Bytes → Bytes → Result (Unit {0})
unfolding reject
check_host [] text = ok tt
check_host (c ∷ host) text =
    let rest = check_host host text in
    if is_invalid c
    then err (reject text (codes "host contains an invalid character '" ++ (c ∷ codes "'")))
    else rest

-- The host and the port behind a bracket; `rest` is what follows the closing one.
abbrev pub after_close : Bytes → Bytes → Bytes → Result (Bytes × Bytes)
after_close text host [] =
    err (reject text (codes "bracketed IPv6 address must be followed by \":port\""))
after_close text host (c ∷ port) =
    if not (c == b':')
    then err (reject text (codes "bracketed IPv6 address must be followed by \":port\""))
    else if not (contains host b':')
    then err (reject text (codes "brackets are for IPv6 addresses, which contain ':'"))
    else ok (host, port)

-- `text`, which begins with a bracket, split into host and port.
unfoldable pub split_bracketed : Bytes → Result (Bytes × Bytes)
split_bracketed text = elim (find_byte b']' text) [
  | none ↦ err (reject text (codes "unclosed '[' in IPv6 address"))
  | some close ↦ after_close text (take (close - 1) (drop 1 text)) (drop (close + 1) text)
]

unfoldable pub split_plain : Bytes → Result (Bytes × Bytes)
split_plain text = elim (rfind_byte b':' text) [
  | none ↦ err (reject text (codes "expected \"host:port\""))
  | some colon ↦
      if contains (take colon text) b':'
      then err (reject text (codes "IPv6 addresses must be bracketed, as \"[::1]:8080\""))
      else ok (take colon text, drop (colon + 1) text)
]

unfoldable pub split_text : Bytes → Result (Bytes × Bytes)
unfolding reject split_bracketed split_plain
split_text [] = err (reject [] (codes "empty"))
split_text (c ∷ rest) = if c == b'[' then split_bracketed (c ∷ rest) else split_plain (c ∷ rest)

abbrev pub made : Bytes → Bytes × Bytes → Result Endpoint
made text (host, port_text) = do
  check_host host text
  port ← parse_port port_text text
  endpoint host port

unfoldable pub parse : Bytes → Result Endpoint
parse text = split_text text >>= made text

unfoldable pub is_ipv6 : Endpoint → Bool
is_ipv6 e = contains e.host b':'

unfoldable pub str : Endpoint → Bytes
unfolding is_ipv6
str e =
    if is_ipv6 e
    then codes "[" ++ (e.host ++ (codes "]:" ++ to_string e.port))
    else e.host ++ (codes ":" ++ to_string e.port)
