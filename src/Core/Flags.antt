-- ===== src/Core/Flags.antt =====
-- src/core/flags.hpp and src/core/flags.cpp: the command line. The arguments are those behind the
-- program's name; `std::map` is an association list with one entry for each name.
mod Tests
pub mod Lookup
pub mod Numbers
use dariyanaap.Prelude.{
  ℕ, zero, suc, ◌+◌, ◌-◌, ◌*◌, ◌/◌, List, [], ◌∷◌, ◌++◌, Option, none, some, Bool, true, false, not,
  ◌&&◌, ◌||◌, ltb, ◌==◌, if◌then◌else◌, u64, u64_mod, drop,
}
use dariyanaap.Prelude.Text.{Bytes, codes, bytes_eq, is_empty, is_digit, starts_with}
use dariyanaap.Core.Double.{Double}
use dariyanaap.Core.Errors.{Result, ok, err, usage_error, ◌>>=◌, ◌>>◌, throw_if}

abbrev pub Values : Type 0
Values = List (Bytes × Bytes)

unfoldable pub wants_help : List Bytes → Bool
wants_help [] = false
wants_help (argument ∷ arguments) =
    bytes_eq argument (codes "--help") || (bytes_eq argument (codes "-h") || wants_help arguments)

-- `values_[name] = value`
unfoldable pub assign : Bytes → Bytes → Values → Values
assign name value [] = (name, value) ∷ []
assign name value ((n, v) ∷ values) =
    let rest = assign name value values in
    if bytes_eq n name then (n, value) ∷ values else (n, v) ∷ rest

unfoldable pub lookup : Bytes → Values → Option Bytes
lookup name [] = none
lookup name ((n, v) ∷ values) =
    let rest = lookup name values in if bytes_eq n name then some v else rest

abbrev pub member : Bytes → List Bytes → Bool
member name [] = false
member name (k ∷ known) = bytes_eq k name || member name known

unfoldable pub listed : List Bytes → Bytes
listed [] = []
listed (name ∷ known) = codes " --" ++ (name ++ listed known)

abbrev pub dashes : Bytes
dashes = codes "--"

-- The checks on one argument, up to its name.
unfoldable pub flag_name : List Bytes → Bytes → Result Bytes
unfolding listed
flag_name known argument = do
  throw_if (not (starts_with dashes argument))
      (usage_error (codes "expected a --flag, got \"" ++ (argument ++ codes "\"")))
  let name = drop 2 argument
  throw_if (is_empty name) (usage_error (codes "\"--\" is not a flag name"))
  throw_if (not (member name known)) (
      usage_error
        (codes "unknown flag --" ++ (name ++ (codes "; accepted flags are" ++ listed known))))
  ok name

-- The loop, with the flags so far.
unfoldable pub parse_from : List Bytes → Values → List Bytes → Result Values
parse_from known values [] = ok values
parse_from known values (argument ∷ []) = do
  name ← flag_name known argument
  err (usage_error (dashes ++ (name ++ codes " needs a value")))
parse_from known values (argument ∷ value ∷ arguments) = do
  name ← flag_name known argument
  parse_from known (assign name value values) arguments

unfoldable pub parse : List Bytes → List Bytes → Result Values
parse arguments known = parse_from known [] arguments

abbrev is_some : Option Bytes → Bool
is_some none = false
is_some (some v) = true

unfoldable pub has : Values → Bytes → Bool
has values name = is_some (lookup name values)

abbrev pub or_else : Option Bytes → Bytes → Bytes
or_else none fallback = fallback
or_else (some v) fallback = v

unfoldable pub text : Values → Bytes → Bytes → Bytes
text values name fallback = or_else (lookup name values) fallback

-- The loop over the digits of a `uint64_t`.
unfoldable pub digits : Bytes → Bytes → Bytes → ℕ → Result ℕ
digits name value [] parsed = ok parsed
digits name value (digit ∷ rest) parsed =
    let d = digit - b'0' in
    let next = digits name value rest (u64 (parsed * 10 + d)) in
    if not (is_digit digit)
    then err (
        usage_error
          (dashes ++ (name ++ (codes " must be a whole number, got \"" ++ (value ++ codes "\"")))))
    else if ltb ((u64_mod - 1 - d) / 10) parsed
    then err
        (usage_error (dashes ++ (name ++ (codes " is too large: \"" ++ (value ++ codes "\"")))))
    else next

abbrev number_of : Option Bytes → Bytes → ℕ → Result ℕ
number_of none name fallback = ok fallback
number_of (some []) name fallback =
    err (usage_error (dashes ++ (name ++ codes " needs a number, got an empty value")))
number_of (some (c ∷ value)) name fallback = digits name (c ∷ value) (c ∷ value) 0

unfoldable pub number : Values → Bytes → ℕ → Result ℕ
unfolding digits
number values name fallback = number_of (lookup name values) name fallback

module _ (double : Double) where
  open double use {Carrier, scan, is_finite}

  abbrev finite : Option Carrier → Bytes → Bytes → Result Carrier
  finite none name value = err (
      usage_error
        (dashes ++ (name ++ (codes " must be a number, got \"" ++ (value ++ codes "\"")))))
  finite (some parsed) name value =
      if is_finite parsed
      then ok parsed
      else err (
          usage_error
            (dashes ++ (name ++ (codes " must be a number, got \"" ++ (value ++ codes "\"")))))

  abbrev real_of : Option Bytes → Bytes → Carrier → Result Carrier
  real_of none name fallback = ok fallback
  real_of (some value) name fallback = finite (scan value) name value

  unfoldable pub real : Values → Bytes → Carrier → Result Carrier
  real values name fallback = real_of (lookup name values) name fallback
