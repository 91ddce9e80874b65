-- ===== src/Fault/Control.antt =====
-- `serve` of src/fault/control.cpp: one control connection, from what its reads bring and what its
-- writes do. A session that has ended keeps no bytes.
pub mod Lines
pub mod Chunks
use dariyanaap.Prelude.{
  ℕ, zero, suc, ◌+◌, List, [], ◌∷◌, ◌++◌, Option, none, some, Bool, true, false, ◌==◌,
  if◌then◌else◌, length, take, drop,
}
use dariyanaap.Prelude.Text.{Bytes, codes, find}
use dariyanaap.Core.Double.{Double}
use dariyanaap.Core.Errors.{Error, what, Result, ok, err}
use dariyanaap.Core.Socket.{Recv, Send, read_some, write_all}
use dariyanaap.Fault.Knobs.{Knobs}
use dariyanaap.Fault.Commands.{apply_command}

-- `writes` has the results of the calls of `send` for each reply that is still to come.
pub record Session : Type 0 where
  pub knobs : Knobs
  pub pending : Bytes
  pub writes : List (List Send)
  pub replies : List Bytes
  pub is_open : Bool

abbrev pub newline : Bytes
newline = 10 ∷ []

-- `if (!line.empty() && line.back() == '\r') line.pop_back()`
unfoldable pub chomp : Bytes → Bytes
chomp [] = []
chomp (c ∷ []) = if c == 13 then [] else c ∷ []
chomp (c ∷ d ∷ line) = c ∷ chomp (d ∷ line)

abbrev pub answer_of : Knobs → Result (Bytes × Knobs) → Bytes × Knobs
answer_of k (ok (reply, k')) = (reply, k')
answer_of k (err e) = (codes "error: " ++ what e, k)

abbrev pub next_write : List (List Send) → List Send
next_write [] = []
next_write (sends ∷ writes) = sends

abbrev pub later_writes : List (List Send) → List (List Send)
later_writes [] = []
later_writes (sends ∷ writes) = writes

-- After a write: the session goes on with the rest of the bytes, or ends.
abbrev pub written : Session → Bytes → Knobs → Bytes → Result (Unit {0}) → Session
written s rest k reply (ok _) = record s {
  knobs = k;
  pending = rest;
  writes = later_writes s.writes;
  replies = s.replies ++ reply ∷ [];
}
written s rest k reply (err e) = record s {
  knobs = k;
  pending = [];
  writes = later_writes s.writes;
  is_open = false;
}

module _ (double : Double) (strerror : ℕ → Bytes) where
  -- The line in front of the newline at index i.
  unfoldable pub take_line : Session → ℕ → Session
  unfolding chomp
  take_line s i =
      let line = chomp (take i s.pending) in
      let (text, k) = answer_of s.knobs (apply_command double line s.knobs) in
      let reply = text ++ newline in
      written s (drop (i + 1) s.pending) k reply (write_all strerror reply (next_write s.writes)).0

  -- The inner loop, as many rounds as the fuel says. Each takes a byte or more, so one round more
  -- than there are bytes is enough (Fault.Control.Lines).
  unfoldable pub drain : ℕ → Session → Session
  drain zero s = s
  drain (suc fuel) s = elim (find newline s.pending) [
    | none ↦ s
    | some i ↦ let s' = take_line s i in if s'.is_open then drain fuel s' else s'
  ]

  -- What one read brings.
  unfoldable pub feed : Session → Bytes → Session
  feed s bytes =
      let grown = record s { pending = s.pending ++ bytes } in
      if s.is_open then drain (suc (length grown.pending)) grown else s

  abbrev pub close : Session → Session
  close s = record s { pending = []; is_open = false }

  -- The outer loop, from the results of the reads.
  abbrev pub received : Session → Result Bytes → (Session → Session) → Session
  received s (err e) again = close s
  received s (ok []) again = close s
  received s (ok (b ∷ bytes)) again = again (feed s (b ∷ bytes))

  unfoldable pub serve_reads : ℕ → List Recv → Session → Session
  serve_reads zero script s = s
  serve_reads (suc fuel) script s =
      let (got, rest) = read_some strerror script in
      if s.is_open then received s got (serve_reads fuel rest) else s

  unfoldable pub serve : Knobs → List (List Send) → List Recv → Session
  serve k writes script =
      serve_reads (suc (length script)) script
        (record { knobs = k; pending = []; writes = writes; replies = []; is_open = true })
