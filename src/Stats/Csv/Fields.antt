-- ===== src/Stats/Csv/Fields.antt =====
-- A reader of CSV fields, after RFC 4180, for what `quoted` of src/stats/csv.cpp writes.
use dariyanaap.Prelude.{
  ℕ, ◌≡◌, refl, sym, ap, ◌∙◌, [], ◌∷◌, ◌++◌, Option, none, some, false, ◌==◌, if◌then◌else◌, arith,
  Bool-cases, inl, inr, if_true, if_false,
}
use mathlib.Core.List.{append_assoc}
use dariyanaap.Prelude.Text.{Bytes}
use dariyanaap.Stats.Csv.{comma, quote, is_special, needs_quotes, doubled, quoted}

-- One more byte in front of a field that has been read.
abbrev pub in_front : ℕ → Option (Bytes × Bytes) → Option (Bytes × Bytes)
in_front c none = none
in_front c (some (field, rest)) = some (c ∷ field, rest)

-- Inside of quotes a quote is doubled; a single one ends the field.
unfoldable pub read_quoted : Bytes → Option (Bytes × Bytes)
read_quoted [] = none
read_quoted (c ∷ []) = if c == 34 then some ([], []) else none
read_quoted (c ∷ d ∷ text) =
    if c == 34
    then (if d == 34 then in_front 34 (read_quoted text) else some ([], d ∷ text))
    else in_front c (read_quoted (d ∷ text))

-- Outside of quotes a comma or a line break ends the field, and a quote must not stand in it.
unfoldable pub read_plain : Bytes → Option (Bytes × Bytes)
read_plain [] = some ([], [])
read_plain (c ∷ text) =
    if c == 34
    then none
    else if is_special c
    then some ([], c ∷ text)
    else in_front c (read_plain text)

-- The first field of a row, and what is behind it.
unfoldable pub read_field : Bytes → Option (Bytes × Bytes)
unfolding read_quoted read_plain
read_field [] = some ([], [])
read_field (c ∷ text) = if c == 34 then read_quoted text else read_plain (c ∷ text)

read_quoted-other :
    (c : ℕ) (text : Bytes)
    → (c == 34) ≡ false
    → read_quoted (c ∷ text) ≡ in_front c (read_quoted text)
unfolding read_quoted
read_quoted-other c [] e = if_false (c == 34) _ _ e
read_quoted-other c (d ∷ text) e = if_false (c == 34) _ _ e

read_quoted-doubled :
    (value rest : Bytes)
    → read_quoted (doubled value ++ (quote ∷ comma ∷ rest)) ≡ some (value, comma ∷ rest)
unfolding read_quoted
read_quoted-doubled [] rest = refl
read_quoted-doubled (c ∷ value) rest = elim (Bool-cases (c == 34)) [
  | inl e ↦
      let q : c ≡ 34 = ground arith in
      ap (λ text. read_quoted (text ++ (quote ∷ comma ∷ rest))) (if_true (c == 34) _ _ e)
      ∙ (ap (in_front 34) (read_quoted-doubled value rest)
          ∙ ap (λ b. some (b ∷ value, comma ∷ rest)) (sym q))
  | inr e ↦
      ap (λ text. read_quoted (text ++ (quote ∷ comma ∷ rest))) (if_false (c == 34) _ _ e)
      ∙ (read_quoted-other c (doubled value ++ (quote ∷ comma ∷ rest)) e
          ∙ ap (in_front c) (read_quoted-doubled value rest))
]

read_plain-value :
    (value rest : Bytes)
    → needs_quotes value ≡ false
    → read_plain (value ++ (comma ∷ rest)) ≡ some (value, comma ∷ rest)
unfolding read_plain
read_plain-value [] rest h = refl
read_plain-value (c ∷ value) rest h = rw (read_plain-value value rest (ground arith)) (ground arith)

read_field-plain :
    (value rest : Bytes)
    → needs_quotes value ≡ false
    → read_field (value ++ (comma ∷ rest)) ≡ some (value, comma ∷ rest)
unfolding read_field
read_field-plain [] rest h = read_plain-value [] rest h
read_field-plain (c ∷ value) rest h =
    let e : (c == 34) ≡ false = ground arith in
    if_false (c == 34) _ _ e ∙ read_plain-value (c ∷ value) rest h

-- Whatever the text, and whatever stands behind it in its row: a reader gets back the text that was
-- quoted, and goes on at the comma behind it.
pub read_field-quoted :
    (value rest : Bytes) → read_field (quoted value ++ (comma ∷ rest)) ≡ some (value, comma ∷ rest)
unfolding quoted read_field
read_field-quoted value rest = elim (Bool-cases (needs_quotes value)) [
  | inl e ↦
      ap (λ text. read_field (text ++ (comma ∷ rest))) (if_true (needs_quotes value) _ _ e)
      ∙ (ap read_quoted (append_assoc (doubled value) (quote ∷ []) (comma ∷ rest))
          ∙ read_quoted-doubled value rest)
  | inr e ↦
      ap (λ text. read_field (text ++ (comma ∷ rest))) (if_false (needs_quotes value) _ _ e)
      ∙ read_field-plain value rest e
]
