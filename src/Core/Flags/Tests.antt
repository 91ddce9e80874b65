-- ===== src/Core/Flags/Tests.antt =====
-- The theorem on src/core/flags.cpp at a command line that names one flag twice.
use dariyanaap.Prelude.{refl, ◌≡◌, [], ◌∷◌}
use dariyanaap.Prelude.Text.{codes}
use dariyanaap.Core.Errors.{ok, ◌>>=◌}
use dariyanaap.Core.Flags.{Values, parse, text, lookup, number}
use dariyanaap.Core.Flags.Lookup.{arguments, parse-text}
use dariyanaap.Core.Flags.Numbers.{Reads, written, number-Reads}

abbrev given_flags : Values
given_flags =
    (codes "seed", codes "7") ∷ (codes "rate", codes "50") ∷ (codes "seed", codes "9") ∷ []

parse-text_example :
    (parse (arguments given_flags) (codes "rate" ∷ codes "seed" ∷ [])
      >>= (λ values. ok (text values (codes "seed") [])))
    ≡ ok (codes "9")
parse-text_example =
    parse-text (codes "rate" ∷ codes "seed" ∷ []) given_flags (codes "seed") [] refl

-- One more than the largest number of 64 bits.
abbrev too_large : Values
too_large = (codes "count", codes "18446744073709551616") ∷ []

number-Reads_example :
    Reads (written (lookup (codes "count") too_large) 1) (number too_large (codes "count") 1)
number-Reads_example = number-Reads too_large (codes "count") 1
