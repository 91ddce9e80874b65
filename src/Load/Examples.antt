-- ===== src/Load/Examples.antt =====
-- What the system does in the runs on which the theorems on src/load and apps are tried.
use dariyanaap.Prelude.{ℕ, List, [], ◌∷◌, some, true}
use dariyanaap.Prelude.Text.{Bytes, codes}
use dariyanaap.Core.Errors.{ok}
use dariyanaap.Core.Socket
use dariyanaap.Core.Socket.{Send, sent, Recv, received, Attempt, at_once}
use dariyanaap.Load.Worker.{Turn, WorkerConfig}
use dariyanaap.Load.ClosedLoop.{World}
use dariyanaap.Load.OpenLoop.{OpenTurn}
use dariyanaap.Load.OpenLoop.Run.{OpenWorld}

abbrev pub no_message : ℕ → Bytes
no_message code = []

abbrev pub sends : List Send
sends = sent 3 ∷ []

abbrev pub recvs : List Recv
recvs = received (codes "ab") ∷ received (codes "c") ∷ []

abbrev pub config : WorkerConfig
config = record {
  connect_timeout = 1000;
  read_timeout = 2000;
  write_timeout = 2000;
  reconnect_delay = 1;
  read_buffer_bytes = 16384;
}

abbrev pub answering : Attempt
answering = record {
  address = codes "127.0.0.1:80";
  creating = Socket.succeeded;
  no_sigpipe = Socket.succeeded;
  get_flags = Socket.succeeded;
  set_nonblocking = Socket.succeeded;
  connecting = at_once;
  polls = [];
  get_error = Socket.succeeded;
  so_error = 0;
  get_flags_again = Socket.succeeded;
  set_blocking = Socket.succeeded;
}

abbrev pub turn : Turn
turn = record {
  now = 150;
  attempts = answering ∷ [];
  receive_option = Socket.succeeded;
  send_option = Socket.succeeded;
  sent = 151;
  sends = sends;
  recvs = recvs;
  ended = 158;
  recorded = 160;
}

abbrev pub world : World
world = record {
  resolved = ok tt;
  started = 100;
  threads = λ i. some (turn ∷ []);
  resolution = ok 41;
}

-- A turn that begins late for its slot, and sends later still.
abbrev pub open_turn : OpenTurn
open_turn = record {
  now = 150;
  attempts = answering ∷ [];
  receive_option = Socket.succeeded;
  send_option = Socket.succeeded;
  failed_at = 0;
  free_at = 160;
  sending = 170;
  sent = 171;
  sends = (sent 1 ∷ []);
  recvs = received (codes "b") ∷ [];
  ended = 181;
}

abbrev pub turns : List (ℕ × OpenTurn)
turns = (0, open_turn) ∷ (1, open_turn) ∷ (0, open_turn) ∷ []

abbrev pub open_world : OpenWorld
open_world = record {
  resolved = ok tt;
  started = 100;
  thread_starts = λ i. true;
  turns = turns;
  resolution = ok 41;
}
