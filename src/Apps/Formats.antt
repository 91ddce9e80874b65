-- ===== src/Apps/Formats.antt =====
-- What apps/hist_verify.cpp and apps/fault_cost.cpp use of the standard library to read a number and
-- to print into a field: std::strtoul, which is std::strtoull here, and the widths of printf.
use dariyanaap.Prelude.{
  ℕ, ◌+◌, ◌-◌, ◌*◌, min, [], ◌∷◌, ◌++◌, length, replicate, leb, ltb, ◌==◌, if◌then◌else◌, u64,
  u64_mod,
}
use dariyanaap.Prelude.Text.{Bytes, is_digit}

-- std::strtoul in base ten: blanks, a sign, and the digits up to the first byte that is none. Too
-- large a number gives the largest.
unfoldable pub skip_blanks : Bytes → Bytes
skip_blanks [] = []
skip_blanks (c ∷ cs) =
    let rest = skip_blanks cs in
    if c == 32 then rest else if leb 9 c then if leb c 13 then rest else c ∷ cs else c ∷ cs

unfoldable pub leading_number : ℕ → Bytes → ℕ
leading_number n [] = n
leading_number n (c ∷ cs) =
    let more = leading_number (n * 10 + (c - b'0')) cs in if is_digit c then more else n

abbrev negated : ℕ → ℕ
negated n = if ltb n u64_mod then u64 (u64_mod - n) else u64_mod - 1

abbrev signed_number : Bytes → ℕ
signed_number [] = 0
signed_number (c ∷ cs) =
    if c == b'-'
    then negated (leading_number 0 cs)
    else if c == b'+'
    then min (leading_number 0 cs) (u64_mod - 1)
    else min (leading_number 0 (c ∷ cs)) (u64_mod - 1)

unfoldable pub strtoul : Bytes → ℕ
unfolding skip_blanks leading_number
strtoul text = signed_number (skip_blanks text)

-- A field of that width, the text at its end.
unfoldable pub pad : ℕ → Bytes → Bytes
pad width text = replicate (width - length text) b' ' ++ text
