-- ===== src/Load/Tests.antt =====
-- The theorems on src/load at inputs that meet their hypotheses.
use dariyanaap.Prelude.{arith, ◌≡◌, ◌-◌, refl, [], ◌∷◌, ◌++◌, true}
use mathlib.Core.List.{cons-ne-nil}
use dariyanaap.Prelude.Text.{Bytes, codes, find}
use dariyanaap.Core.Double.Rational.{rational}
use dariyanaap.Core.Errors.{ok}
use dariyanaap.Core.Socket.{write_all, read_some, write_from}
use dariyanaap.Stats.TimeSeries.{TimeSeries}
use dariyanaap.Load.Protocol.{need_more, Protocol, complete, malformed}
use dariyanaap.Load.RawEcho
use dariyanaap.Load.RawEcho.{payload}
use dariyanaap.Load.Http.Requests.{WellFormed, acceptable, build_get-WellFormed}
use dariyanaap.Load.Http.{
  build_get, status_code, header_value, header_lines, line_value, content_length,
  equal_ignoring_case, trim, trim_front, trim_back, decimal, code_digits,
}
use dariyanaap.Load.Http11Get.{consume, with_headers, framed}
use dariyanaap.Load.Http11Get.Framing.{consume_longer, consume_shorter}
use dariyanaap.Load.Exchange.{receive, perform_request, perform_with}
use dariyanaap.Load.Exchange.Outcomes.{
  FitsExchange, Replied, perform_request-Fits, perform_request-Replied,
}
use dariyanaap.Load.Worker.{new_worker, run}
use dariyanaap.Load.Worker.Accounting.{IsBalanced, new_worker-IsBalanced, run-IsBalanced}
use dariyanaap.Load.ClosedLoop.{ClosedLoopPlan, run_closed_loop}
use dariyanaap.Load.ClosedLoop.Consistency.{IsConsistentRun, run_closed_loop-IsConsistentRun}
use dariyanaap.Load.Examples.{no_message, sends, recvs, config, turn, world}

abbrev line_break : Bytes
line_break = 13 ∷ 10 ∷ []

-- A response with a body of two bytes.
abbrev reply : Bytes
reply =
    codes "HTTP/1.1 200 OK"
    ++ (line_break ++ (codes "Content-Length: 2" ++ (line_break ++ (line_break ++ codes "hi"))))

reply-complete : consume reply ≡ complete
unfolding consume with_headers framed status_code code_digits header_value header_lines line_value
    content_length equal_ignoring_case trim trim_front trim_back decimal find
reply-complete = refl

consume_longer_example : consume (reply ++ codes "x") ≡ malformed
consume_longer_example = consume_longer reply (codes "x") reply-complete (cons-ne-nil _ _)

consume_shorter_example : consume (codes "HTTP/1.1 200 OK") ≡ need_more
consume_shorter_example =
    consume_shorter (codes "HTTP/1.1 200 OK")
      (line_break ++ (codes "Content-Length: 2" ++ (line_break ++ (line_break ++ codes "hi"))))
      reply-complete (cons-ne-nil _ _) (omega arith)

abbrev echo : Protocol
echo = record {
  request = payload 3;
  consume = RawEcho.consume (payload 3);
  succeeded = λ response. true;
}

perform_request-Fits_example :
    FitsExchange (107 - 100) (perform_request no_message echo 100 107 sends recvs)
perform_request-Fits_example = perform_request-Fits no_message echo 100 107 sends recvs

echo_usable : (perform_request no_message echo 100 107 sends recvs).connection_usable ≡ true
unfolding perform_request perform_with write_all write_from receive read_some RawEcho.consume
    payload
echo_usable = refl

perform_request-Replied_example :
    ((write_all no_message (payload 3) sends).0 ≡ ok tt)
    × Replied no_message echo
        (107 - 100)
        []
        recvs
        (perform_request no_message echo 100 107 sends recvs).outcome
perform_request-Replied_example =
    perform_request-Replied no_message echo 100 107 sends recvs echo_usable

abbrev series : TimeSeries
series = record { start = 100; seconds = [] }

run-IsBalanced_example :
    IsBalanced (run no_message echo config 100 1000 series (new_worker true) (turn ∷ turn ∷ [])).1
run-IsBalanced_example =
    run-IsBalanced no_message echo config 100 1000 series (new_worker true) (turn ∷ turn ∷ [])
      (new_worker-IsBalanced true)

abbrev plan : ClosedLoopPlan
plan = record { connections = 2; duration = 10; warmup = 0; worker = config; timeseries = true }

run_closed_loop-IsConsistentRun_example :
    IsConsistentRun (run_closed_loop no_message rational echo plan world)
run_closed_loop-IsConsistentRun_example =
    run_closed_loop-IsConsistentRun no_message rational echo plan world 41 refl refl

build_get-WellFormed_example :
    WellFormed
      (acceptable (codes "localhost:80") (codes "/index.html"))
      (build_get (codes "dariyanaap/1") (codes "localhost:80") (codes "/index.html"))
build_get-WellFormed_example =
    build_get-WellFormed (codes "dariyanaap/1") (codes "localhost:80") (codes "/index.html") refl
      refl
