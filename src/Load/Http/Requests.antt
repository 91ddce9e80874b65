-- ===== src/Load/Http/Requests.antt =====
-- `build_get` of src/load/http.cpp: what it refuses, and the line breaks of the request.
use dariyanaap.Prelude.{
  ℕ, ◌≡◌, refl, [], ◌∷◌, ◌++◌, Bool, true, false, not, ◌||◌, ◌&&◌, ◌==◌, arith, Bool-cases, inl,
  inr,
}
use dariyanaap.Prelude.Counting.{count_if, count_if-append}
use dariyanaap.Prelude.Text.{Bytes, codes, is_empty, contains}
use dariyanaap.Core.Errors.{is_usage_error, Result, ok, err}
use dariyanaap.Load.Http.{reject_crlf, starts_with_slash, build_get, crlf}

-- How often a byte stands in a text.
abbrev pub occurrences : ℕ → Bytes → ℕ
occurrences b = count_if (λ c. c == b)

occurrences-none : (b : ℕ) (s : Bytes) → contains s b ≡ false → occurrences b s ≡ 0
occurrences-none b [] h = refl
occurrences-none b (c ∷ s) h = ground (arith, occurrences-none b s)

-- What `build_get` asks of its arguments.
abbrev pub acceptable : Bytes → Bytes → Bool
acceptable host path =
    not (is_empty host)
    && (starts_with_slash path
        && (not (contains host 13 || contains host 10)
            && not (contains path 13 || contains path 10)))

occurrences-skip :
    (b : ℕ) (s r : Bytes) → contains s b ≡ false → occurrences b (s ++ r) ≡ occurrences b r
occurrences-skip b s r h = omega (arith, count_if-append (λ c. c == b) s r, occurrences-none b s h)

abbrev request_of : Bytes → Bytes → Bytes → Bytes
request_of version host path =
    (codes "GET " ++ (path ++ (codes " HTTP/1.1" ++ crlf)))
    ++ ((codes "Host: " ++ (host ++ crlf))
        ++ ((codes "User-Agent: " ++ (version ++ crlf)) ++ ((codes "Accept: */*" ++ crlf) ++ crlf)))

occurrences-request_of :
    (b : ℕ) (version host path : Bytes)
    → contains version b ≡ false
    → contains host b ≡ false
    → contains path b ≡ false
    → occurrences b (request_of version host path) ≡ occurrences b (request_of [] [] [])
occurrences-request_of b version host path v h p = simp (
  count_if-append,
  occurrences-none b version v,
  occurrences-none b host h,
  occurrences-none b path p,
)

-- A request, or what is thrown, for arguments that are acceptable or not: the request has five line
-- breaks, as many as the program writes, whatever the host and the path.
abbrev pub WellFormed : Bool → Result Bytes → Type 0
WellFormed acceptable (ok request) =
    (acceptable ≡ true) × (occurrences 13 request ≡ 5) × (occurrences 10 request ≡ 5)
WellFormed acceptable (err e) = (acceptable ≡ false) × (is_usage_error e ≡ true)

-- Where the program's version has no line break: the arguments are refused with a usage error exactly
-- if they are not acceptable, and else nothing in them can add a line to the request.
pub build_get-WellFormed :
    (version host path : Bytes)
    → contains version 13 ≡ false
    → contains version 10 ≡ false
    → WellFormed (acceptable host path) (build_get version host path)
unfolding build_get reject_crlf
build_get-WellFormed version host path v w = elim (Bool-cases (is_empty host)) [
  | inl e ↦ rw e (refl, refl)
  | inr e ↦ elim (Bool-cases (starts_with_slash path)) [
    | inr f ↦ rw (e, f) (refl, refl)
    | inl f ↦ elim (Bool-cases (contains host 13 || contains host 10)) [
      | inl g ↦ rw (e, f, g) (refl, refl)
      | inr g ↦ elim (Bool-cases (contains path 13 || contains path 10)) [
        | inl h ↦ rw (e, f, g, h) (refl, refl)
        | inr h ↦
            rw (e, f, g, h)
              (
                refl,
                occurrences-request_of 13 version host path v (ground arith) (ground arith),
                occurrences-request_of 10 version host path w (ground arith) (ground arith),
              )
      ]
    ]
  ]
]
