-- ===== src/Load/Http.antt =====
-- src/load/http.hpp and src/load/http.cpp: the little HTTP that the program speaks. A position in
-- a text is kept as the text from it on; `version()` is a parameter.
pub mod Numbers
pub mod Requests
use dariyanaap.Prelude.{
  ℕ, zero, suc, ◌+◌, ◌-◌, ◌*◌, ◌/◌, [], ◌∷◌, ◌++◌, Option, none, some, Bool, true, false, not, ◌&&◌,
  ◌||◌, ltb, leb, ◌==◌, if◌then◌else◌, u64, u64_mod, length, get_or, take, drop,
}
use dariyanaap.Prelude.Text.{Bytes, codes, is_empty, contains, starts_with, find, is_digit}
use dariyanaap.Core.Errors.{Result, ok, usage_error, ◌>>◌, throw_if}

abbrev pub crlf : Bytes
crlf = 13 ∷ 10 ∷ []

unfoldable pub reject_crlf : Bytes → Bytes → Result (Unit {0})
reject_crlf value field =
    throw_if (contains value 13 || contains value 10)
      (usage_error (field ++ codes " must not contain CR or LF"))

-- `path.empty() || path.front() != '/'`
abbrev pub starts_with_slash : Bytes → Bool
starts_with_slash [] = false
starts_with_slash (c ∷ path) = c == b'/'

unfoldable pub build_get : Bytes → Bytes → Bytes → Result Bytes
unfolding reject_crlf
build_get version host path = do
  throw_if (is_empty host)
      (usage_error (codes "HTTP host must not be empty; HTTP/1.1 requires a Host header"))
  throw_if (not (starts_with_slash path))
      (usage_error (codes "HTTP path must start with '/', got \"" ++ (path ++ codes "\"")))
  reject_crlf host (codes "HTTP host")
  reject_crlf path (codes "HTTP path")
  ok (
      (codes "GET " ++ (path ++ (codes " HTTP/1.1" ++ crlf)))
      ++ ((codes "Host: " ++ (host ++ crlf))
          ++ ((codes "User-Agent: " ++ (version ++ crlf))
              ++ ((codes "Accept: */*" ++ crlf) ++ crlf))))

-- The three digits from index i on.
unfoldable pub code_digits : Bytes → ℕ → ℕ → ℕ → Option ℕ
code_digits head i zero code = some code
code_digits head i (suc n) code =
    let digit = get_or head i 0 in
    let rest = code_digits head (i + 1) n (code * 10 + (digit - b'0')) in
    if not (is_digit digit) then none else rest

unfoldable pub status_code : Bytes → Option ℕ
status_code response =
    let code = code_digits response 9 3 0 in
    if ltb (length response) 12
    then none
    else if not (starts_with (codes "HTTP/1.1 ") response)
        && not (starts_with (codes "HTTP/1.0 ") response)
    then none
    else elim code [
      | none ↦ none
      | some c ↦
          if ltb 12 (length response) && is_digit (get_or response 12 0) then none else some c
    ]

abbrev pub lower : ℕ → ℕ
lower c = if leb b'A' c && leb c b'Z' then c + 32 else c

unfoldable pub equal_ignoring_case : Bytes → Bytes → Bool
equal_ignoring_case [] [] = true
equal_ignoring_case [] (d ∷ t) = false
equal_ignoring_case (c ∷ s) [] = false
equal_ignoring_case (c ∷ s) (d ∷ t) = lower c == lower d && equal_ignoring_case s t

abbrev pub is_blank : ℕ → Bool
is_blank c = c == 32 || c == 9

unfoldable pub trim_front : Bytes → Bytes
trim_front [] = []
trim_front (c ∷ s) = let rest = trim_front s in if is_blank c then rest else c ∷ s

-- The loop that removes from the back.
unfoldable pub trim_back : Bytes → Bytes
trim_back [] = []
trim_back (c ∷ s) = elim (trim_back s) [
  | [] ↦ if is_blank c then [] else c ∷ []
  | d ∷ rest ↦ c ∷ d ∷ rest
]

unfoldable pub trim : Bytes → Bytes
unfolding trim_front trim_back
trim value = trim_back (trim_front value)

-- Where the text stops: at the next line break, or at its end.
abbrev pub line_end : Bytes → ℕ
line_end text = elim (find crlf text) [ none ↦ length text | some i ↦ i ]

-- The value of one line if its name matches.
unfoldable pub line_value : Bytes → Bytes → Option Bytes
line_value line name = elim (find (b':' ∷ []) line) [
  | none ↦ none
  | some colon ↦
      if equal_ignoring_case (take colon line) name
      then some (trim (drop (colon + 1) line))
      else none
]

-- The loop over the lines, from the text of the next one on. Every round takes two bytes or more,
-- so fuel for as many rounds as there are bytes is enough.
unfoldable pub header_lines : ℕ → Bytes → Bytes → Option Bytes
header_lines zero rest name = none
header_lines (suc fuel) [] name = none
header_lines (suc fuel) (c ∷ rest) name =
    let text = c ∷ rest in
    let ends = line_end text in
    let next = header_lines fuel (drop (ends + 2) text) name in
    elim (line_value (take ends text) name) [ some value ↦ some value | none ↦ next ]

unfoldable pub header_value : Bytes → Bytes → Option Bytes
header_value headers name = elim (find crlf headers) [
  | none ↦ none
  | some i ↦ header_lines (length headers) (drop (i + 2) headers) name
]

-- The digits of a `uint64_t`, refused on any other byte and where the value would not fit.
unfoldable pub decimal : Bytes → ℕ → Option ℕ
decimal [] length = some length
decimal (digit ∷ rest) length =
    let d = digit - b'0' in
    let next = decimal rest (u64 (length * 10 + d)) in
    if not (is_digit digit)
    then none
    else if ltb ((u64_mod - 1 - d) / 10) length
    then none
    else next

abbrev pub plain_decimal : Bytes → Option ℕ
plain_decimal [] = none
plain_decimal (c ∷ s) = decimal (c ∷ s) 0

unfoldable pub content_length : Bytes → Option ℕ
content_length headers = elim (header_value headers (codes "content-length")) [
  | none ↦ none
  | some value ↦ plain_decimal value
]
