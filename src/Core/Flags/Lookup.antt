-- ===== src/Core/Flags/Lookup.antt =====
-- What the flags of src/core/flags.cpp hold after a command line has been parsed.
use dariyanaap.Prelude.{
  ◌≡◌, refl, sym, ap, ◌∙◌, List, [], ◌∷◌, ◌++◌, Option, none, some, Bool, true, false, not, ◌&&◌,
  if◌then◌else◌, arith, Bool-cases, inl, inr, if_true, if_false,
}
use dariyanaap.Prelude.Text.{Bytes, bytes_eq, bytes_eq_sound, bytes_eq_refl, is_empty}
use dariyanaap.Core.Errors.{ok, ◌>>=◌}
use dariyanaap.Core.Flags.{
  Values, assign, lookup, member, dashes, flag_name, parse_from, parse, text, or_else,
}

-- The arguments that set these flags, in turn.
abbrev pub arguments : Values → List Bytes
arguments [] = []
arguments ((name, value) ∷ flags) = (dashes ++ name) ∷ value ∷ arguments flags

-- Every name is one that is known, and none is empty.
abbrev pub all_known : List Bytes → Values → Bool
all_known known [] = true
all_known known ((name, value) ∷ flags) =
    not (is_empty name) && (member name known && all_known known flags)

-- The value that was given last for a name.
abbrev pub last_value : Values → Bytes → Option Bytes → Option Bytes
last_value [] name before = before
last_value ((n, v) ∷ flags) name before =
    last_value flags name (if bytes_eq n name then some v else before)

flag_name-known :
    (known : List Bytes) (name : Bytes)
    → is_empty name ≡ false
    → member name known ≡ true
    → flag_name known (dashes ++ name) ≡ ok name
unfolding flag_name
flag_name-known known name e m = rw (e, m) refl

if_first {ℓ} :
    {A : Type ℓ} (b c : Bool) (x y z : A)
    → b ≡ c
    → (if b then x else y) ≡ (if c then x else (if b then z else y))
if_first true true x y z h = refl
if_first true false x y z h = absurd (cc)
if_first false true x y z h = absurd (cc)
if_first false false x y z h = refl

if_swap {ℓ} :
    {A : Type ℓ} (b c : Bool) (x y z : A)
    → (b && c) ≡ false
    → (if b then z else (if c then x else y)) ≡ (if c then x else (if b then z else y))
if_swap true true x y z h = absurd (cc)
if_swap true false x y z h = refl
if_swap false c x y z h = refl

bytes_apart :
    (m n name : Bytes) → bytes_eq m n ≡ false → (bytes_eq m name && bytes_eq n name) ≡ false
bytes_apart m n name e = elim (Bool-cases (bytes_eq m name)) [
  | inr f ↦ rw (f) refl
  | inl t ↦ elim (Bool-cases (bytes_eq n name)) [
    | inr f ↦ rw (t, f) refl
    | inl u ↦ absurd (clash (bytes_eq_sound m name t ∙ sym (bytes_eq_sound n name u)))
  ]
]
  where
    differ : true ≡ false → ⊥
    differ h = cc

    clash : m ≡ n → ⊥
    clash p = differ (sym (bytes_eq_refl m) ∙ ap (bytes_eq m) p ∙ e)

lookup-assign :
    (name n v : Bytes) (values : Values)
    → lookup name (assign n v values) ≡ (if bytes_eq n name then some v else lookup name values)
unfolding lookup assign
lookup-assign name n v [] = refl
lookup-assign name n v ((m, w) ∷ values) = elim (Bool-cases (bytes_eq m n)) [
  | inl e ↦
      ap (lookup name) (if_true (bytes_eq m n) ((m, v) ∷ values) ((m, w) ∷ assign n v values) e)
      ∙ if_first (bytes_eq m name) (bytes_eq n name) (some v) (lookup name values) (some w)
          (ap (λ k. bytes_eq k name) (bytes_eq_sound m n e))
  | inr e ↦
      ap (lookup name) (if_false (bytes_eq m n) ((m, v) ∷ values) ((m, w) ∷ assign n v values) e)
      ∙ ap (λ r. if bytes_eq m name then some w else r) (lookup-assign name n v values)
      ∙ if_swap (bytes_eq m name) (bytes_eq n name) (some v) (lookup name values) (some w)
          (bytes_apart m n name e)
]

abbrev assign_all : Values → Values → Values
assign_all [] before = before
assign_all ((name, value) ∷ flags) before = assign_all flags (assign name value before)

lookup-assign_all :
    (name : Bytes) (flags before : Values)
    → lookup name (assign_all flags before) ≡ last_value flags name (lookup name before)
lookup-assign_all name [] before = refl
lookup-assign_all name ((n, v) ∷ flags) before =
    lookup-assign_all name flags (assign n v before)
    ∙ ap (last_value flags name) (lookup-assign name n v before)

parse_from-arguments :
    (known : List Bytes) (flags before : Values)
    → all_known known flags ≡ true
    → parse_from known before (arguments flags) ≡ ok (assign_all flags before)
unfolding parse_from
parse_from-arguments known [] before h = refl
parse_from-arguments known ((name, value) ∷ flags) before h =
    ap (λ r. r >>= (λ n. parse_from known (assign n value before) (arguments flags)))
      (flag_name-known known name (named.0) (named.1))
    ∙ parse_from-arguments known flags (assign name value before) (named.2)
  where
    named : (is_empty name ≡ false) × (member name known ≡ true) × (all_known known flags ≡ true)
    named = ground arith

-- A command line of known flags with their values is read, whatever their order and
-- number, and the text of a name is then the value that was given last for it, or the fallback where none was.
pub parse-text :
    (known : List Bytes) (flags : Values) (name fallback : Bytes)
    → all_known known flags ≡ true
    → (parse (arguments flags) known >>= (λ values. ok (text values name fallback)))
      ≡ ok (or_else (last_value flags name none) fallback)
unfolding parse text lookup
parse-text known flags name fallback h =
    ap (λ r. r >>= (λ values. ok (or_else (lookup name values) fallback)))
      (parse_from-arguments known flags [] h)
    ∙ ap (λ v. ok (or_else v fallback)) (lookup-assign_all name flags [])
