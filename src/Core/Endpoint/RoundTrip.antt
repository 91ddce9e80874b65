-- ===== src/Core/Endpoint/RoundTrip.antt =====
-- `Endpoint::parse` of src/core/endpoint.cpp on what `Endpoint::str` prints.
use dariyanaap.Prelude.{
  ℕ, suc, ◌+◌, ◌-◌, ◌*◌, ◌≤◌, ◌≡◌, refl, ap, ap₂, ◌∙◌, [], ◌∷◌, ◌++◌, none, some, Bool, true, false,
  not, ◌||◌, ◌&&◌, ltb, ◌==◌, arith, length, take, drop, Bool-cases, inl, inr, if_true, if_false,
}
use dariyanaap.Prelude.Text.{Bytes, codes, is_empty, contains, is_digit, to_string}
use dariyanaap.Prelude.Text.Digits.{
  all_digits, number_from, number_from-le, all_digits-to_string, number_from-to_string,
  to_string-is_empty, contains-all_digits,
}
use dariyanaap.Core.Errors.{ok, err, invalid_endpoint, ◌>>=◌}
use dariyanaap.Core.Endpoint.{
  Endpoint, endpoint, port_digits, parse_port, find_byte, rfind_byte, is_invalid, check_host,
  split_bracketed, split_plain, split_text, after_close, made, parse, is_ipv6, str,
}

-- The loop over digits that write a port reads that port.
port_digits-number_from :
    (s : Bytes) (n : ℕ) (whole : Bytes)
    → all_digits s ≡ true
    → number_from s n ≤ 65535
    → port_digits s n whole ≡ ok (number_from s n)
unfolding port_digits
port_digits-number_from [] n whole h l = refl
port_digits-number_from (c ∷ s) n whole h l =
    let d : is_digit c ≡ true = ground arith in
    let small : ltb 65535 (n * 10 + (c - b'0')) ≡ false =
      ground (arith, number_from-le s (n * 10 + (c - b'0'))) in
    rw (d, small) (port_digits-number_from s (n * 10 + (c - b'0')) whole (ground arith) l)

parse_port-to_string :
    (port : ℕ) (whole : Bytes) → port ≤ 65535 → parse_port (to_string port) whole ≡ ok port
unfolding parse_port
parse_port-to_string port whole l =
    let e = number_from-to_string port in
    rw (to_string-is_empty port) (
      port_digits-number_from (to_string port) 0 whole (all_digits-to_string port)
        (omega (arith, e))
      ∙ ap ok e)

find_byte-append :
    (b : ℕ) (s r : Bytes) → contains s b ≡ false → find_byte b (s ++ (b ∷ r)) ≡ some (length s)
unfolding find_byte
find_byte-append b [] r h = ground arith
find_byte-append b (c ∷ s) r h = rw (find_byte-append b s r (ground arith)) (ground arith)

rfind_byte-none : (b : ℕ) (s : Bytes) → contains s b ≡ false → rfind_byte b s ≡ none
unfolding rfind_byte
rfind_byte-none b [] h = refl
rfind_byte-none b (c ∷ s) h = rw (rfind_byte-none b s (ground arith)) (ground arith)

rfind_byte-append :
    (b : ℕ) (s r : Bytes) → contains r b ≡ false → rfind_byte b (s ++ (b ∷ r)) ≡ some (length s)
unfolding rfind_byte
rfind_byte-append b [] r h = rw (rfind_byte-none b r h) (ground arith)
rfind_byte-append b (c ∷ s) r h = rw (rfind_byte-append b s r h) refl

take-length_append : (s r : Bytes) → take (length s) (s ++ r) ≡ s
take-length_append [] r = refl
take-length_append (c ∷ s) r = ap (◌∷◌ c) (take-length_append s r)

drop-length_append : (s : Bytes) (b : ℕ) (r : Bytes) → drop (suc (length s)) (s ++ (b ∷ r)) ≡ r
drop-length_append [] b r = refl
drop-length_append (c ∷ s) b r = drop-length_append s b r

-- No character of the host is one that `parse` refuses.
abbrev pub is_plain : Bytes → Bool
is_plain [] = true
is_plain (c ∷ s) = not (is_invalid c) && is_plain s

check_host-ok : (s text : Bytes) → is_plain s ≡ true → check_host s text ≡ ok tt
unfolding check_host
check_host-ok [] text h = refl
check_host-ok (c ∷ s) text h =
    let e : is_invalid c ≡ false = ground arith in rw e (check_host-ok s text (ground arith))

-- What the constructor demands of the host.
abbrev is_host : Bytes → Bool
is_host host = not (is_empty host) && not (contains host b'[' || contains host b']')

endpoint-is_host :
    (host : Bytes) (port : ℕ) (e : Endpoint) → endpoint host port ≡ ok e → is_host host ≡ true
unfolding endpoint
endpoint-is_host host port e h = elim (Bool-cases (is_empty host)) [
  | inl x ↦ absurd (cc (refused_empty x))
  | inr x ↦ elim (Bool-cases (contains host b'[' || contains host b']')) [
    | inl y ↦ absurd (cc (refused_bracket x y))
    | inr y ↦ rw (x, y) refl
  ]
]
  where
    refused_empty :
        is_empty host ≡ true
        → endpoint host port ≡ err (invalid_endpoint (codes "endpoint host must not be empty"))
    refused_empty x = rw x refl

    refused_bracket :
        is_empty host ≡ false
        → (contains host b'[' || contains host b']') ≡ true
        → endpoint host port
          ≡ err (
              invalid_endpoint (
                codes "endpoint host must not contain brackets, got \""
                ++ (host
                    ++ (codes "\" "
                        ++ (226
                            ∷ 128
                            ∷ 148
                            ∷ codes " use Endpoint::parse for \"[::1]:8080\" form")))))
    refused_bracket x y = rw (x, y) refl

split_plain-some :
    (text : Bytes) (i : ℕ)
    → rfind_byte b':' text ≡ some i
    → contains (take i text) b':' ≡ false
    → split_plain text ≡ ok (take i text, drop (i + 1) text)
unfolding split_plain
split_plain-some text i e h = rw (e, split_plain) (if_false (contains (take i text) b':') _ _ h)

split_bracketed-some :
    (text : Bytes) (i : ℕ)
    → find_byte b']' text ≡ some i
    → split_bracketed text ≡ after_close text (take (i - 1) (drop 1 text)) (drop (i + 1) text)
unfolding split_bracketed
split_bracketed-some text i e = rw (e, split_bracketed)

split_text-plain :
    (host port : Bytes)
    → is_host host ≡ true
    → contains host b':' ≡ false
    → contains port b':' ≡ false
    → split_text (host ++ (b':' ∷ port)) ≡ ok (host, port)
unfolding split_text
split_text-plain [] port h v p = absurd (cc)
split_text-plain (c ∷ host) port h v p =
    let f : (c == b'[') ≡ false = ground arith in
    let t : take (length (c ∷ host)) ((c ∷ host) ++ (b':' ∷ port)) ≡ c ∷ host =
      take-length_append (c ∷ host) (b':' ∷ port) in
    let d : drop (length (c ∷ host) + 1) ((c ∷ host) ++ (b':' ∷ port)) ≡ port =
      ap (λ n. drop n ((c ∷ host) ++ (b':' ∷ port))) (plus_one (length (c ∷ host)))
      ∙ drop-length_append (c ∷ host) b':' port in
    if_false (c == b'[') _ _ f
    ∙ (split_plain-some ((c ∷ host) ++ (b':' ∷ port)) (length (c ∷ host))
          (rfind_byte-append b':' (c ∷ host) port p) (ap (λ x. contains x b':') t ∙ v)
        ∙ ap₂ (λ x y. ok (x, y)) t d)
  where
    plus_one : (n : ℕ) → n + 1 ≡ suc n
    plus_one n = omega arith

split_text-bracketed :
    (host port : Bytes)
    → is_host host ≡ true
    → contains host b':' ≡ true
    → split_text (b'[' ∷ (host ++ (b']' ∷ (b':' ∷ port)))) ≡ ok (host, port)
unfolding split_text find_byte
split_text-bracketed host port h v =
    let text = b'[' ∷ (host ++ (b']' ∷ (b':' ∷ port))) in
    let f : find_byte b']' text ≡ some (suc (length host)) =
      rw (find_byte-append b']' host (b':' ∷ port) (ground arith)) refl in
    let t : take (suc (length host) - 1) (drop 1 text) ≡ host =
      ap (λ n. take n (drop 1 text)) (minus_one (length host))
      ∙ take-length_append host (b']' ∷ (b':' ∷ port)) in
    let d : drop (suc (length host) + 1) text ≡ b':' ∷ port =
      ap (λ n. drop n text) (plus_one (length host)) ∙ drop-length_append host b']' (b':' ∷ port) in
    split_bracketed-some text (suc (length host)) f
    ∙ (ap₂ (after_close text) t d ∙ if_false (not (contains host b':')) _ _ (ap not v))
  where
    minus_one : (n : ℕ) → suc n - 1 ≡ n
    minus_one n = omega arith

    plus_one : (n : ℕ) → suc n + 1 ≡ suc (suc n)
    plus_one n = omega arith

made-ok :
    (text : Bytes) (e : Endpoint)
    → endpoint e.host e.port ≡ ok e
    → is_plain e.host ≡ true
    → e.port ≤ 65535
    → made text (e.host, to_string e.port) ≡ ok e
made-ok text e h p l = rw (check_host-ok e.host text p, parse_port-to_string e.port text l) h

-- Every endpoint that the constructor accepts, with a port of 16 bits, is read back from what it
-- prints, with or without brackets, as long as no character of its host is one that `parse` refuses.
pub parse-str :
    (e : Endpoint)
    → endpoint e.host e.port ≡ ok e
    → is_plain e.host ≡ true
    → e.port ≤ 65535
    → parse (str e) ≡ ok e
unfolding parse str is_ipv6
parse-str e h p l = elim (Bool-cases (contains e.host b':')) [
  | inl v ↦
      ap parse (if_true (contains e.host b':') _ _ v)
      ∙ (ap (λ r. r >>= made (b'[' ∷ (e.host ++ (b']' ∷ (b':' ∷ to_string e.port)))))
            (split_text-bracketed e.host (to_string e.port) (endpoint-is_host e.host e.port e h) v)
          ∙ made-ok _ e h p l)
  | inr v ↦
      ap parse (if_false (contains e.host b':') _ _ v)
      ∙ (ap (λ r. r >>= made (e.host ++ (b':' ∷ to_string e.port)))
            (split_text-plain e.host (to_string e.port) (endpoint-is_host e.host e.port e h) v
              (contains-all_digits (to_string e.port) b':' (all_digits-to_string e.port) refl))
          ∙ made-ok _ e h p l)
]
