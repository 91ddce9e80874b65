-- ===== src/Prelude/Text.antt =====
-- Texts as lists of bytes, and the functions of `std::string` and `std::string_view` on them.
pub mod Searching
pub mod Digits
pub mod Fitting
use Prim.Native.Char.{code}
use Prim.Native.String.{String}
use Prim.Native.Nat.{ℕ, zero, suc, ◌+◌, ◌/◌, ◌%◌, ◌<◌}
use mathlib.Core.Path.{◌≡◌, refl}
use mathlib.Core.Logic.{dite, ◌↔◌, ◌≢◌}
use mathlib.Core.Bool.{Bool, true, false, ◌&&◌, ◌||◌}
use mathlib.Core.Option
use mathlib.Core.Option.{Option, none, some}
use mathlib.Core.List.{List, [], ◌∷◌, ◌++◌, append_assoc}
use mathlib.Core.WellFounded.{Acc, WellFounded}
use native.Mathlib.Decide.{dec_lt}
use native.Mathlib.Omega.{arith}
use dariyanaap.Prelude.Tests.{◌==◌, leb, if◌then◌else◌}
use dariyanaap.Prelude.Order.{lt_wf}

abbrev pub Bytes : Type 0
Bytes = List ℕ

-- The code points of a literal, which are its bytes where it is ASCII.
abbrev pub codes : String → Bytes
codes String.[] = []
codes (String.◌∷◌ c s) = code c ∷ codes s

abbrev pub bytes_eq : Bytes → Bytes → Bool
bytes_eq [] [] = true
bytes_eq [] (d ∷ t) = false
bytes_eq (c ∷ s) [] = false
bytes_eq (c ∷ s) (d ∷ t) = c == d && bytes_eq s t

pub bytes_eq_sound : (s t : Bytes) → bytes_eq s t ≡ true → s ≡ t
bytes_eq_sound [] [] h = refl
bytes_eq_sound [] (d ∷ t) h = cc
bytes_eq_sound (c ∷ s) [] h = cc
bytes_eq_sound (c ∷ s) (d ∷ t) h = ground (arith, bytes_eq_sound s t)

pub bytes_eq_refl : (s : Bytes) → bytes_eq s s ≡ true
bytes_eq_refl [] = refl
bytes_eq_refl (c ∷ s) = ground (arith, bytes_eq_refl s)

pub bytes_eq_iff : (s t : Bytes) → (bytes_eq s t ≡ true) ↔ (s ≡ t)
bytes_eq_iff s t = (bytes_eq_sound s t, λ e. rw e (bytes_eq_refl t))

-- The parts of a text, put together.
abbrev pub concat : List Bytes → Bytes
concat [] = []
concat (part ∷ parts) = part ++ concat parts

-- `text.find(c) != npos`
abbrev pub contains : Bytes → ℕ → Bool
contains [] b = false
contains (c ∷ s) b = c == b || contains s b

abbrev pub is_empty : Bytes → Bool
is_empty [] = true
is_empty (c ∷ s) = false

-- `text.starts_with(needle)`
abbrev pub starts_with : Bytes → Bytes → Bool
starts_with [] s = true
starts_with (b ∷ needle) [] = false
starts_with (b ∷ needle) (c ∷ s) = c == b && starts_with needle s

-- `text.find(needle)`; none is `npos`.
unfoldable pub find : Bytes → Bytes → Option ℕ
find needle [] = if is_empty needle then some 0 else none
find needle (c ∷ s) =
    let later = Option.map suc (find needle s) in
    if starts_with needle (c ∷ s) then some 0 else later

-- '0' to '9'
abbrev pub is_digit : ℕ → Bool
is_digit c = leb b'0' c && leb c b'9'

emit : (n : ℕ) → Acc ◌<◌ n → Bytes → Bytes
emit n (Acc.intro _ smaller) out =
    dite (dec_lt 9 n) (λ h. emit (n / 10) (smaller (n / 10) (omega arith)) ((b'0' + n % 10) ∷ out))
      (λ _. (b'0' + n % 10) ∷ out)

-- `std::to_string` of an unsigned number.
unfoldable pub to_string : ℕ → Bytes
unfolding emit lt_wf dec_lt
to_string n = emit n (lt_wf.apply n) []

to_string_runs : to_string 8080 ≡ codes "8080"
unfolding to_string
to_string_runs = refl
