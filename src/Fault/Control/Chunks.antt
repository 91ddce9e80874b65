-- ===== src/Fault/Control/Chunks.antt =====
-- `serve` of src/fault/control.cpp, and how the bytes of a control connection are split into reads.
use mathlib.Core.List.{append_assoc, append-nil}
use dariyanaap.Prelude.{
  ℕ, zero, suc, ◌<◌, ◌≡◌, refl, sym, ap, ◌∙◌, List, [], ◌∷◌, ◌++◌, true, false, if◌then◌else◌,
  arith, length, Bool-cases, inl, inr, if_true, if_false,
}
use dariyanaap.Prelude.Text.{Bytes, find}
use dariyanaap.Core.Double.{Double}
use dariyanaap.Core.Socket.{Recv, Send, read_some}
use dariyanaap.Fault.Knobs.{Knobs}
use dariyanaap.Fault.Control.{Session, drain, feed, close, serve_reads, serve}
use dariyanaap.Fault.Control.Lines.{feed_closed, feed_twice}

module _ (double : Double) (strerror : ℕ → Bytes) where
  abbrev ended : Session → Session
  ended s = if s.is_open then close double strerror s else s

  -- Reads that bring these chunks, none of them empty.
  abbrev pub reads : List (ℕ × Bytes) → List Recv
  reads [] = []
  reads ((b, bytes) ∷ chunks) = Recv.received (b ∷ bytes) ∷ reads chunks

  abbrev pub joined : List (ℕ × Bytes) → Bytes
  joined [] = []
  joined ((b, bytes) ∷ chunks) = (b ∷ bytes) ++ joined chunks

  serve_closed :
      (f : ℕ) (script : List Recv) (s : Session)
      → s.is_open ≡ false
      → serve_reads double strerror f script s ≡ s
  unfolding serve_reads
  serve_closed zero script s o = refl
  serve_closed (suc f) script s o = if_false s.is_open _ s o

  -- A session over a script of chunks, behind bytes that have been read already.
  serve_reads-joined :
      (chunks : List (ℕ × Bytes)) (f : ℕ) (s : Session) (a : Bytes)
      → length (reads chunks) < f
      → serve_reads double strerror f (reads chunks) (feed double strerror s a)
        ≡ ended (feed double strerror s (a ++ joined chunks))
  unfolding serve_reads read_some
  serve_reads-joined chunks zero s a h = absurd (omega arith)
  serve_reads-joined [] (suc f) s a h =
      ap (λ x. ended (feed double strerror s x)) (sym (append-nil a))
  serve_reads-joined ((b, bytes) ∷ chunks) (suc f) s a h =
      elim (Bool-cases (feed double strerror s a).is_open) [
        | inl o ↦
            if_true (feed double strerror s a).is_open _ _ o
            ∙ (ap (serve_reads double strerror f (reads chunks))
                  (feed_twice double strerror s a (b ∷ bytes))
                ∙ (serve_reads-joined chunks f s (a ++ (b ∷ bytes)) (omega arith)
                    ∙ ap (λ x. ended (feed double strerror s x))
                        (append_assoc a (b ∷ bytes) (joined chunks))))
        | inr o ↦
            let r = feed double strerror s a in
            let same : feed double strerror s (a ++ ((b ∷ bytes) ++ joined chunks)) ≡ r =
              sym (feed_twice double strerror s a ((b ∷ bytes) ++ joined chunks))
              ∙ feed_closed double strerror r _ o in
            if_false r.is_open _ r o ∙ sym (ap ended same ∙ if_false r.is_open _ r o)
      ]

  -- A control connection answers the lines that were sent, however the network splits their bytes
  -- into reads: any two ways to split the same bytes leave the same knobs and bring the same replies.
  pub serve_split :
      (k : Knobs) (writes : List (List Send)) (chunks others : List (ℕ × Bytes))
      → joined chunks ≡ joined others
      → serve double strerror k writes (reads chunks)
        ≡ serve double strerror k writes (reads others)
  unfolding serve feed drain find
  serve_split k writes chunks others e =
      serve_reads-joined chunks _ start [] (omega arith)
      ∙ (ap (λ x. ended (feed double strerror start x)) e
          ∙ sym (serve_reads-joined others _ start [] (omega arith)))
    where
      start : Session
      start = record { knobs = k; pending = []; writes = writes; replies = []; is_open = true }
