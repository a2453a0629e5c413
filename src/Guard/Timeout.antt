-- ===== src/Guard/Timeout.antt =====
-- guard/timeout.go: the writer that buffers a response until the handler returns or the deadline
-- passes. Each method is one step under the writer's lock, so a sequence of events stands for one
-- interleaving of the handler's goroutine with the middleware. A panic of the handler is left
-- out, and of the map of headers that `Header` returns only its method Add is a step.
pub mod Answer
pub mod Tests
use chassis_go.Prelude.{
  ℕ, Bool, true, false, ltb, List, [], ◌∷◌, ◌++◌, Option, none, some, length, if◌then◌else◌,
}

-- What the real writer is given: a response, with no status if none was written, or the problem of
-- a timeout.
pub data Sent : Type 0 where
  response : List (List ℕ × List ℕ) → Option ℕ → List ℕ → Sent
  timeout_problem : Sent

-- `timeoutWriter`, and what its writer was given. The headers are the entries that were added.
pub record TimeoutWriter : Type 0 where
  pub code : ℕ
  pub headers : List (List ℕ × List ℕ)
  pub buf : List ℕ
  pub written : Bool
  pub started : Bool
  pub sent : List Sent

pub new_writer : TimeoutWriter
new_writer = record {
  code = 0;
  headers = [];
  buf = [];
  written = false;
  started = false;
  sent = [];
}

-- `Header().Add`.
pub add_header : List ℕ → List ℕ → TimeoutWriter → TimeoutWriter
add_header k v tw = record tw { headers = tw.headers ++ (k, v) ∷ [] }

-- `WriteHeader`.
pub write_header : ℕ → TimeoutWriter → TimeoutWriter
write_header code tw = if tw.started then tw else record tw { started = true; code = code }

-- The first write without a status is a 200.
start_ok : TimeoutWriter → TimeoutWriter
start_ok tw = if tw.started then tw else record tw { started = true; code = 200 }

-- `Write`, with its count, or none for `ErrHandlerTimeout`.
pub write_bytes : List ℕ → TimeoutWriter → TimeoutWriter × Option ℕ
unfolding start_ok
write_bytes b tw =
    let started = start_ok tw in
    if tw.written then (tw, none) else (record started { buf = started.buf ++ b }, some (length b))

-- The status that `flush` passes on.
status : ℕ → Option ℕ
status code = if ltb 0 code then some code else none

-- `flush`.
pub flush : TimeoutWriter → TimeoutWriter
unfolding status
flush tw = if tw.written then tw else record tw {
  written = true;
  sent = tw.sent ++ response tw.headers (status tw.code) tw.buf ∷ [];
}

-- What `timeout` drops of a response that was started.
discard : TimeoutWriter → TimeoutWriter
discard tw = if tw.started then record tw { headers = []; buf = []; code = 0 } else tw

-- `timeout`.
pub time_out : TimeoutWriter → TimeoutWriter
unfolding discard
time_out tw =
    let dropped = discard tw in
    if tw.written
    then tw
    else record dropped { written = true; sent = dropped.sent ++ timeout_problem ∷ [] }

-- What the handler calls, and the two ends.
pub data Op : Type 0 where
  adds : List ℕ → List ℕ → Op
  sets_status : ℕ → Op
  writes : List ℕ → Op

pub data End : Type 0 where
  finished deadline : End

pub data Event : Type 0 where
  handler : Op → Event
  ended : End → Event

pub step_op : Op → TimeoutWriter → TimeoutWriter
step_op (adds k v) tw = add_header k v tw
step_op (sets_status code) tw = write_header code tw
step_op (writes b) tw = (write_bytes b tw).0

pub step_end : End → TimeoutWriter → TimeoutWriter
step_end finished tw = flush tw
step_end deadline tw = time_out tw

pub run_events : List Event → TimeoutWriter → TimeoutWriter
run_events [] tw = tw
run_events (handler op ∷ events) tw = run_events events (step_op op tw)
run_events (ended e ∷ events) tw = run_events events (step_end e tw)

pub handlers : List Op → List Event
handlers [] = []
handlers (op ∷ ops) = handler op ∷ handlers ops
