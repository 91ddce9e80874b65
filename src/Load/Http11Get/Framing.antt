-- ===== src/Load/Http11Get/Framing.antt =====
-- `Http11Get::consume` of src/load/http11_get.cpp: where a response ends.

use dariyanaap.Prelude.{
  ℕ, ◌+◌, ◌≤◌, ◌<◌, ◌≡◌, ◌≢◌, refl, sym, ap, ◌∙◌, [], ◌∷◌, ◌++◌, none, some, true, false, arith,
  u64, length, length-append, take, ltb, if◌then◌else◌, Option-cases, Bool-cases, inl, inr,
}
use dariyanaap.Prelude.Text.{Bytes, codes, find}
use dariyanaap.Prelude.Text.Searching.{find-bound, find-append, take_of_append}
use dariyanaap.Load.Protocol.{need_more, complete, malformed}
use dariyanaap.Load.Http.{status_code, header_value, content_length}
use dariyanaap.Load.Http11Get.{
  max_header_bytes, blank_line, no_body, has_value, unframed, framed, with_headers, consume,
}

length-pos : (r : Bytes) → r ≢ [] → 0 < length r
length-pos [] h = absurd (h refl)
length-pos (c ∷ r) h = omega arith

-- The three ways in which a complete response is framed.
unframed-complete :
    (text : Bytes) (n : ℕ)
    → unframed text n ≡ complete
    → (no_body (status_code text) ≡ true) × (length text ≡ n)
unfolding unframed
unframed-complete text n h = ground arith

unframed-longer : (text : Bytes) (n : ℕ) → n < length text → unframed text n ≡ malformed
unfolding unframed
unframed-longer text n h = ground arith

framed-complete : (text : Bytes) (n d : ℕ) → framed text n d ≡ complete → length text ≡ u64 (n + d)
unfolding framed
framed-complete text n d h = ground arith

framed-longer : (text : Bytes) (n d : ℕ) → u64 (n + d) < length text → framed text n d ≡ malformed
unfolding framed
framed-longer text n d h = ground arith

framed-shorter : (text : Bytes) (n d : ℕ) → length text < u64 (n + d) → framed text n d ≡ need_more
unfolding framed
framed-shorter text n d h = ground arith

-- How a response with this header block is framed.
pub data Framed (text headers : Bytes) (n : ℕ) : Type 0 where
  by_length :
      (d : ℕ)
      → has_value (header_value headers (codes "transfer-encoding")) ≡ false
      → content_length headers ≡ some d
      → length text ≡ u64 (n + d)
      → Framed text headers n
  by_status :
      has_value (header_value headers (codes "transfer-encoding")) ≡ false
      → content_length headers ≡ none
      → no_body (status_code text) ≡ true
      → length text ≡ n
      → Framed text headers n

module _ (text headers : Bytes) (n : ℕ) where
  with_headers_encoded :
      has_value (header_value headers (codes "transfer-encoding")) ≡ true
      → with_headers text headers n ≡ malformed
  unfolding with_headers
  with_headers_encoded t = rw t

  with_headers-unframed :
      has_value (header_value headers (codes "transfer-encoding")) ≡ false
      → content_length headers ≡ none
      → with_headers text headers n ≡ unframed text n
  unfolding with_headers
  with_headers-unframed t c = rw (t, c)

  with_headers-framed :
      (d : ℕ)
      → has_value (header_value headers (codes "transfer-encoding")) ≡ false
      → content_length headers ≡ some d
      → with_headers text headers n ≡ framed text n d
  unfolding with_headers
  with_headers-framed d t c = rw (t, c)

  with_headers-Framed : with_headers text headers n ≡ complete → Framed text headers n
  with_headers-Framed h =
      elim (Bool-cases (has_value (header_value headers (codes "transfer-encoding")))) [
        | inl t ↦ absurd (cc (with_headers_encoded t))
        | inr t ↦ elim (Option-cases (content_length headers)) [
          | inl c ↦
              let (b, l) = unframed-complete text n (sym (with_headers-unframed t c) ∙ h) in
              by_status t c b l
          | inr (d, c) ↦
              by_length d t c (framed-complete text n d (sym (with_headers-framed d t c) ∙ h))
        ]
      ]

consume-none :
    (text : Bytes)
    → find blank_line text ≡ none
    → consume text ≡ (if ltb max_header_bytes (length text) then malformed else need_more)
unfolding consume
consume-none text e = rw (e, consume)

consume-some :
    (text : Bytes) (blank : ℕ)
    → find blank_line text ≡ some blank
    → consume text ≡ with_headers text (take blank text) (blank + 4)
unfolding consume
consume-some text blank e = rw (e, consume)

-- Where the response is complete, its header block ends somewhere, and the block frames it.
pub FramedAt : Bytes → Type 0
FramedAt text =
    (blank : ℕ) × (find blank_line text ≡ some blank)
    × (blank + 4 ≤ length text)
    × Framed text (take blank text) (blank + 4)

-- A complete response has a header block that ends inside it, and either a declared length that
-- its bytes meet, or none and a status that allows no body, with no byte behind the block; no
-- transfer encoding is taken.
pub consume-FramedAt : (text : Bytes) → consume text ≡ complete → FramedAt text
unfolding FramedAt
consume-FramedAt text h = elim (Option-cases (find blank_line text)) [
  | inl e ↦ absurd (ground (arith, consume-none text e))
  | inr (blank, e) ↦ (
    blank,
    e,
    find-bound blank_line text blank e,
    with_headers-Framed text _ _ (sym (consume-some text blank e) ∙ h),
  )
]

-- The header block of a text is that of every longer text.
consume-append :
    (p r : Bytes) (blank : ℕ)
    → find blank_line p ≡ some blank
    → blank + 4 ≤ length p
    → consume (p ++ r) ≡ with_headers (p ++ r) (take blank p) (blank + 4)
consume-append p r blank e bound =
    consume-some (p ++ r) blank (find-append blank_line p r blank e)
    ∙ ap (λ h. with_headers (p ++ r) h (blank + 4)) (take_of_append blank p r (omega arith))

append-longer : (p r : Bytes) → r ≢ [] → length p < length (p ++ r)
append-longer p r ne = omega (arith, length-append p r, length-pos r ne)

-- Nothing behind a complete response is taken for a part of it: if a text is a complete
-- response, any bytes behind it make the whole malformed.
pub consume_longer : (p r : Bytes) → consume p ≡ complete → r ≢ [] → consume (p ++ r) ≡ malformed
unfolding FramedAt
consume_longer p r h ne = go (consume-FramedAt p h)
  where
    go : FramedAt p → consume (p ++ r) ≡ malformed
    go (blank, e, bound, by_length d t c l) =
        consume-append p r blank e bound
        ∙ (with_headers-framed (p ++ r) (take blank p) (blank + 4) d t c
            ∙ framed-longer (p ++ r) (blank + 4) d (omega (arith, append-longer p r ne)))
    go (blank, e, bound, by_status t c b l) =
        consume-append p r blank e bound
        ∙ (with_headers-unframed (p ++ r) (take blank p) (blank + 4) t c
            ∙ unframed-longer (p ++ r) (blank + 4) (omega (arith, append-longer p r ne)))

-- Until the last byte has come, a response is read on: if a text with something behind it is a
-- complete response, the text alone asks for more, as long as it is within the limit on header
-- bytes.
pub consume_shorter :
    (q r : Bytes)
    → consume (q ++ r) ≡ complete
    → r ≢ []
    → length q ≤ max_header_bytes
    → consume q ≡ need_more
consume_shorter q r h ne l = elim (Option-cases (find blank_line q)) [
  | inl e ↦ ground (arith, consume-none q e)
  | inr (blank, e) ↦
      let bound = find-bound blank_line q blank e in
      go blank e bound (
        with_headers-Framed (q ++ r) (take blank q) (blank + 4)
          (sym (consume-append q r blank e bound) ∙ h))
]
  where
    go :
        (blank : ℕ)
        → find blank_line q ≡ some blank
        → blank + 4 ≤ length q
        → Framed (q ++ r) (take blank q) (blank + 4)
        → consume q ≡ need_more
    go blank e bound (by_length d t c len) =
        consume-some q blank e
        ∙ (with_headers-framed q (take blank q) (blank + 4) d t c
            ∙ framed-shorter q (blank + 4) d (omega (arith, append-longer q r ne)))
    go blank e bound (by_status t c b len) = absurd (omega (arith, append-longer q r ne))
