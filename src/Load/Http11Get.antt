-- ===== src/Load/Http11Get.antt =====
-- src/load/http11_get.hpp and src/load/http11_get.cpp: GET, framed by Content-Length.
pub mod Framing
use dariyanaap.Prelude.{
  ℕ, ◌+◌, ◌*◌, List, [], ◌∷◌, Option, none, some, Bool, true, false, ◌&&◌, ◌||◌, ltb, leb, ◌==◌,
  if◌then◌else◌, u64, length, take,
}
use dariyanaap.Prelude.Text.{Bytes, codes, find}
use dariyanaap.Core.Errors.{Result, ok, ◌>>=◌}
use dariyanaap.Load.Protocol.{Protocol, ResponseState, need_more, complete, malformed}
use dariyanaap.Load.Http.{build_get, status_code, header_value, content_length, crlf}

abbrev pub max_header_bytes : ℕ
max_header_bytes = 64 * 1024

abbrev pub carries_no_body : ℕ → Bool
carries_no_body status = status == 204 || (status == 304 || (leb 100 status && ltb status 200))

abbrev pub no_body : Option ℕ → Bool
no_body none = false
no_body (some status) = carries_no_body status

-- The end of the header block.
abbrev pub blank_line : Bytes
blank_line = 13 ∷ 10 ∷ 13 ∷ 10 ∷ []

-- A response without a length that can be read: complete only where no body is allowed.
unfoldable pub unframed : Bytes → ℕ → ResponseState
unframed text body_begins =
    if no_body (status_code text)
    then (if length text == body_begins then complete else malformed)
    else malformed

-- A response that declares `declared` bytes of body; the sum is a `size_t`.
unfoldable pub framed : Bytes → ℕ → ℕ → ResponseState
framed text body_begins declared =
    let total = u64 (body_begins + declared) in
    if ltb (length text) total
    then need_more
    else if length text == total
    then complete
    else malformed

abbrev pub has_value : Option Bytes → Bool
has_value none = false
has_value (some v) = true

unfoldable pub with_headers : Bytes → Bytes → ℕ → ResponseState
with_headers text headers body_begins =
    if has_value (header_value headers (codes "transfer-encoding"))
    then malformed
    else elim (content_length headers) [
      | none ↦ unframed text body_begins
      | some declared ↦ framed text body_begins declared
    ]

unfoldable pub consume : Bytes → ResponseState
consume text = elim (find blank_line text) [
  | none ↦ if ltb max_header_bytes (length text) then malformed else need_more
  | some blank ↦ with_headers text (take blank text) (blank + 4)
]

abbrev pub is_success : Option ℕ → Bool
is_success none = false
is_success (some status) = leb 200 status && ltb status 300

-- `succeeded` asserts that the response is complete.
unfoldable pub succeeded : Bytes → Bool
succeeded response = is_success (status_code response)

-- The constructor.
unfoldable pub http11_get : Bytes → Bytes → Bytes → Result Protocol
http11_get version host path = do
  request ← build_get version host path
  ok (record { request = request; consume = consume; succeeded = succeeded })
