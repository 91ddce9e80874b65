-- ===== src/Fault/Numbers.antt =====
-- Whole numbers as `in >> value` reads a `long long` from a `std::istringstream`.
use dariyanaap.Prelude.{
  ℕ, zero, suc, ◌+◌, ◌-◌, ◌*◌, ◌^◌, [], ◌∷◌, Option, none, some, Bool, true, false, ◌||◌, ◌&&◌, ltb,
  leb, ◌==◌, if◌then◌else◌,
}
use dariyanaap.Prelude.Text.{Bytes, is_digit}

pub data ℤ : Type 0 where
  pos : ℕ → ℤ
  negsuc : ℕ → ℤ

-- The blanks that a stream skips.
abbrev is_space : ℕ → Bool
is_space c = c == 32 || (leb 9 c && leb c 13)

unfoldable pub skip_space : Bytes → Bytes
skip_space [] = []
skip_space (c ∷ s) = let rest = skip_space s in if is_space c then rest else c ∷ s

-- The digits up to the end of the text; any other byte is left over, and `!in.eof()` refuses it.
unfoldable pub all_digits : Bytes → ℕ → Option ℕ
all_digits [] n = some n
all_digits (c ∷ s) n =
    let rest = all_digits s (n * 10 + (c - b'0')) in if is_digit c then rest else none

abbrev some_digits : Bytes → Option ℕ
some_digits [] = none
some_digits (c ∷ s) = all_digits (c ∷ s) 0

-- A value out of range sets `fail()`.
abbrev in_range : Bool → ℕ → Option ℤ
in_range false n = if ltb n (2 ^ 63) then some (pos n) else none
in_range true zero = some (pos 0)
in_range true (suc n) = if ltb n (2 ^ 63) then some (negsuc n) else none

abbrev signed : Bool → Option ℕ → Option ℤ
signed negative none = none
signed negative (some n) = in_range negative n

unfoldable pub scan_unspaced : Bytes → Option ℤ
scan_unspaced [] = none
scan_unspaced (c ∷ s) =
    if c == b'-'
    then signed true (some_digits s)
    else if c == b'+'
    then signed false (some_digits s)
    else signed false (some_digits (c ∷ s))

unfoldable pub scan : Bytes → Option ℤ
unfolding skip_space scan_unspaced
scan text = scan_unspaced (skip_space text)
