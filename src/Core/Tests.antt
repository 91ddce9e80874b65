-- ===== src/Core/Tests.antt =====
-- The theorems on src/core at inputs that meet their hypotheses.
use dariyanaap.Prelude.{refl, min, ◌==◌, if◌then◌else◌, arith, ℕ, ◌≡◌, List, [], ◌∷◌, length}
use dariyanaap.Prelude.Text.{Bytes, codes}
use dariyanaap.Core.Socket.{
  Send, sent, send_interrupted, send_would_block, write_all, succeeded, Attempt, at_once, failed,
  in_progress, expired, connect_any,
}
use dariyanaap.Core.Errors.{ok}
use dariyanaap.Core.Address.{SocketAddress, inet, inet6}
use dariyanaap.Core.Descriptors
use dariyanaap.Core.Descriptors.{
  move_construct, construct, no_owners, here, next, opens, moves, closes,
}
use dariyanaap.Core.Descriptors.Ownership.{IsOwned, Reach-IsOwned}
use dariyanaap.Core.Clock.{spins, measured_resolution}
use dariyanaap.Core.Clock.Resolution.{Measures, measured_resolution-Measures}
use dariyanaap.Core.Listener
use dariyanaap.Core.Listener.{bind_first_that_works}
use dariyanaap.Core.Listener.Binding.{FirstWorks, bind_first_that_works-FirstWorks}
use dariyanaap.Core.Endpoint.{Endpoint, endpoint, parse, str}
use dariyanaap.Core.Endpoint.RoundTrip.{parse-str}
use dariyanaap.Core.Socket.Transfer.{Wrote, write_all-Wrote}
use dariyanaap.Core.Socket.Connects.{Ends, some_connects, all_time_out, connect_any-Ends}

abbrev no_message : ℕ → Bytes
no_message code = []

abbrev hello : Bytes
hello = codes "hello"

abbrev sends : List Send
sends = sent 2 ∷ send_interrupted ∷ sent 1 ∷ send_would_block ∷ []

write_all-Wrote_example : Wrote (length hello) 0 hello (write_all no_message hello sends)
write_all-Wrote_example = write_all-Wrote no_message hello sends

-- An address that does not answer in time, and one that does.
abbrev silent : Attempt
silent = record {
  address = codes "10.0.0.1:80";
  creating = succeeded;
  no_sigpipe = succeeded;
  get_flags = succeeded;
  set_nonblocking = succeeded;
  connecting = in_progress;
  polls = record { left = 5; answer = expired } ∷ [];
  get_error = succeeded;
  so_error = 0;
  get_flags_again = succeeded;
  set_blocking = succeeded;
}

abbrev answering : Attempt
answering = record silent { connecting = at_once }

connect_any-Ends_example :
    Ends no_message 1000
      (some_connects no_message 1000 (silent ∷ answering ∷ []))
      (all_time_out no_message 1000 (silent ∷ answering ∷ []))
      (connect_any no_message 1000 (silent ∷ answering ∷ []))
connect_any-Ends_example = connect_any-Ends no_message 1000 (silent ∷ answering ∷ [])

abbrev loopback : Endpoint
loopback = record { host = codes "::1"; port = 8080 }

loopback-accepted : endpoint (codes "::1") 8080 ≡ ok loopback
unfolding endpoint
loopback-accepted = refl

parse-str_example : parse (str loopback) ≡ ok loopback
parse-str_example = parse-str loopback loopback-accepted refl (omega arith)

-- A clock that ticks with every reading, and addresses of which the second can be bound.
measured_resolution-Measures_example :
    Measures (λ i. min i 1000) spins (measured_resolution (λ i. min i 1000))
measured_resolution-Measures_example =
    measured_resolution-Measures (λ i. min i 1000) (λ i. omega arith) (λ i. omega arith)

abbrev bound : ℕ → Listener.Attempt
bound i = record {
  creating = succeeded;
  no_sigpipe = succeeded;
  reuse = succeeded;
  binding = if i == 0 then failed 48 else succeeded;
  listening = succeeded;
  naming = succeeded;
  name = inet (codes "127.0.0.1") 49_152;
}

abbrev local_addresses : List SocketAddress
local_addresses = inet6 (codes "::1") 0 ∷ inet (codes "127.0.0.1") 0 ∷ []

bind_first_that_works-FirstWorks_example :
    FirstWorks no_message
      (λ address. [])
      bound
      0
      local_addresses
      (bind_first_that_works no_message (λ address. []) bound local_addresses)
bind_first_that_works-FirstWorks_example =
    bind_first_that_works-FirstWorks no_message (λ address. []) bound local_addresses

-- A socket that is opened, moved into a new object, and closed twice.
Reach-IsOwned_example :
    IsOwned (Descriptors.close 0 (Descriptors.close 0 (move_construct 0 (construct 3 no_owners))))
Reach-IsOwned_example =
    Reach-IsOwned (next (next (next (next here (opens 3 refl)) (moves 0)) (closes 0)) (closes 0))
