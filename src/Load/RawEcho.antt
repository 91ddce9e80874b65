-- ===== src/Load/RawEcho.antt =====
-- src/load/raw_echo.hpp and src/load/raw_echo.cpp: a reply is as long as the payload.
use dariyanaap.Prelude.{ℕ, zero, suc, ◌+◌, ◌%◌, [], ◌∷◌, true, ltb, ◌==◌, if◌then◌else◌, length}
use dariyanaap.Prelude.Text.{Bytes, codes}
use dariyanaap.Core.Errors.{Result, ok, err, usage_error}
use dariyanaap.Load.Protocol.{Protocol, ResponseState, need_more, complete, malformed}

-- The bytes of the payload from index i on.
pattern_from : ℕ → ℕ → Bytes
pattern_from i zero = []
pattern_from i (suc n) = (b'a' + i % 26) ∷ pattern_from (i + 1) n

unfoldable pub payload : ℕ → Bytes
unfolding pattern_from
payload size = pattern_from 0 size

unfoldable pub consume : Bytes → Bytes → ResponseState
consume sent response =
    if ltb (length response) (length sent)
    then need_more
    else if length response == length sent
    then complete
    else malformed

-- The constructor.
unfoldable pub raw_echo : ℕ → Result Protocol
raw_echo size =
    if size == 0
    then err (usage_error (codes "raw echo payload size must be at least 1 byte"))
    else ok (record {
      request = payload size;
      consume = consume (payload size);
      succeeded = λ response. true;
    })
