-- ===== src/Load/Protocol.antt =====
-- src/load/protocol.hpp: what the driver asks of a protocol. `consume` and `succeeded` are given
-- everything received for the current response so far.
use dariyanaap.Prelude.{Bool}
use dariyanaap.Prelude.Text.{Bytes}

pub data ResponseState : Type 0 where
  need_more complete malformed : ResponseState

pub record Protocol : Type 0 where
  pub request : Bytes
  pub consume : Bytes → ResponseState
  pub succeeded : Bytes → Bool
