-- ===== src/Call/Client/Tests.antt =====
-- Requests through a client with a breaker, a retrier and a token source.
use chassis_go.Prelude.{◌≡◌, true, false, none, some}
use chassis_go.Call.Breaker.{CircuitBreaker, state_closed, state_open}
use chassis_go.Call.Retry.{Response, answered}
use chassis_go.Call.Client.{Client, Request, do_request, circuit_breaker}
use chassis_go.Call.Client.Context.{do_request-cancel, expected_cancel}

abbrev opened : CircuitBreaker
opened = record {
  state = state_open;
  failures = 2;
  threshold = 2;
  reset_timeout = 30;
  last_failure = 100;
}

abbrev closed : CircuitBreaker
closed = record opened { state = state_closed; failures = 1 }

abbrev unavailable : Response
unavailable = record { id = 1; status = 503; body = true }

abbrev client : CircuitBreaker → Client CircuitBreaker
client cb = record {
  retrier = some (record { max_attempts = 3; base_delay = 1000 });
  breaker = some cb;
}

abbrev request : Request
request = record {
  has_deadline = false;
  get_body = some (λ n. true);
  respond = λ n. answered unavailable;
  token = some (none, "secret");
  allow_time = 120;
  record_time = 150;
  ctx_err = λ n. none;
  wait = λ n. none;
  rand = λ a n. 0;
}

do_request-cancel_example :
    (do_request circuit_breaker (client closed) request).cancel
    ≡ expected_cancel false
        (do_request circuit_breaker (client closed) request).resp
        (do_request circuit_breaker (client closed) request).err
do_request-cancel_example = do_request-cancel circuit_breaker (client closed) request
