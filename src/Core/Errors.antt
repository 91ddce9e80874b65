-- ===== src/Core/Errors.antt =====
-- src/core/errors.hpp and src/core/errors.cpp: the exceptions, with their messages, and a result
-- in their place. `bad_optional_access` is what `std::optional::value` throws.
use dariyanaap.Prelude.{◌≡◌, Bool, true, false, []}
use dariyanaap.Prelude.Text.{Bytes}

pub data Error : Type 0 where
  error : Bytes → Error
  usage_error : Bytes → Error
  invalid_endpoint : Bytes → Error
  io_error : Bytes → Error
  timed_out : Bytes → Error
  bad_optional_access : Error

-- The message of an exception.
abbrev pub what : Error → Bytes
what (error message) = message
what (usage_error message) = message
what (invalid_endpoint message) = message
what (io_error message) = message
what (timed_out message) = message
what bad_optional_access = []

-- What `catch (const UsageError&)` and `catch (const IoError&)` take.
abbrev pub is_usage_error : Error → Bool
is_usage_error (usage_error message) = true
is_usage_error (invalid_endpoint message) = true
is_usage_error (error message) = false
is_usage_error (io_error message) = false
is_usage_error (timed_out message) = false
is_usage_error bad_optional_access = false

abbrev pub is_io_error : Error → Bool
is_io_error (io_error message) = true
is_io_error (timed_out message) = true
is_io_error (error message) = false
is_io_error (usage_error message) = false
is_io_error (invalid_endpoint message) = false
is_io_error bad_optional_access = false

-- What a call that may throw gives back.
pub data Result {ℓ} (A : Type ℓ) : Type ℓ where
  err : Error → Result A
  ok : A → Result A

infixl 5 ◌>>=◌ ◌>>◌
abbrev pub ◌>>=◌ {ℓ κ} :
    {A : Type ℓ} {B : Type κ} (result : Result A) (next : A → Result B) → Result B
err e >>= next = err e
ok value >>= next = next value

abbrev pub ◌>>◌ {ℓ} : {B : Type ℓ} (first : Result (Unit {0})) (next : Result B) → Result B
err e >> next = err e
ok _ >> next = next

-- `if (condition) throw e`
abbrev pub throw_if : Bool → Error → Result (Unit {0})
throw_if true e = err e
throw_if false e = ok tt

-- A result that is no exception other than an `IoError`, a `TimedOut` included.
abbrev pub IoOnly {ℓ} : {A : Type ℓ} → Result A → Type 0
IoOnly (ok a) = Unit {0}
IoOnly (err e) = is_io_error e ≡ true

pub IoOnly-then {ℓ} :
    {B : Type ℓ} (m : Result (Unit {0})) (k : Result B) → IoOnly m → IoOnly k → IoOnly (m >> k)
IoOnly-then (ok a) k hm hk = hk
IoOnly-then (err e) k hm hk = hm
