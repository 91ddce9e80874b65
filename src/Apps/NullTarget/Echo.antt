-- ===== src/Apps/NullTarget/Echo.antt =====
-- What the target of apps/dariyanaap_null.cpp sends back to a client that waits for each reply.
use dariyanaap.Prelude.{ℕ, ◌≡◌, List, [], ◌∷◌, ◌++◌, map, false, length, take, if◌then◌else◌}
use dariyanaap.Prelude.Text.{Bytes, concat, is_empty}
use dariyanaap.Core.Errors.{ok}
use dariyanaap.Core.Socket.{Recv, received, write_all}
use dariyanaap.Fault.Knobs.{should_drop}
use dariyanaap.Apps.NullTarget.{Answer, reply, serve_from}

-- The pieces in which requests arrive, none of them empty.
abbrev pub AllPieces : List Bytes → Type 0
AllPieces [] = Unit
AllPieces (piece ∷ pieces) = (is_empty piece ≡ false) × AllPieces pieces

abbrev pub arrivals : List (List Bytes × Answer) → List Recv
arrivals [] = []
arrivals ((pieces, a) ∷ requests) = map received pieces ++ arrivals requests

abbrev pub answers : List (List Bytes × Answer) → List Answer
answers [] = []
answers ((pieces, a) ∷ requests) = a ∷ answers requests

-- Requests of that length, each of which can be written back whole.
abbrev pub AllRequests : (ℕ → Bytes) → ℕ → List (List Bytes × Answer) → Type 0
AllRequests strerror payload [] = Unit
AllRequests strerror payload ((pieces, a) ∷ requests) =
    AllPieces pieces
    × (length (concat pieces) ≡ payload)
    × ((write_all strerror (concat pieces) a.sends).0 ≡ ok tt)
    × AllRequests strerror payload requests

-- The requests that are not dropped.
abbrev pub kept : List (List Bytes × Answer) → List Bytes
kept [] = []
kept ((pieces, a) ∷ requests) =
    if should_drop a.knobs a.draw then kept requests else concat pieces ∷ kept requests

module _ (strerror : ℕ → Bytes) (payload : ℕ) where
  -- What follows once a whole request is there.
  abbrev served : List Answer → Bytes → List Recv → List Bytes
  served turns held reads =
      reply strerror payload turns (take payload held)
        (λ later. serve_from strerror payload later [] reads)
