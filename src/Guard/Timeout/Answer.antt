-- ===== src/Guard/Timeout/Answer.antt =====
-- The client gets one whole answer.
use mathlib.Core.List.{append-nil, append_assoc}
use chassis_go.Prelude.{
  ℕ, ◌≡◌, refl, sym, ◌∙◌, true, false, ltb, List, [], ◌∷◌, ◌++◌, none, some, if◌then◌else◌, arith,
  Bool-cases, inl, inr,
}
use chassis_go.Guard.Timeout.{
  Sent, response, timeout_problem, TimeoutWriter, new_writer, add_header, write_header, start_ok,
  write_bytes, status, flush, discard, time_out, Op, adds, sets_status, writes, End, finished,
  deadline, Event, handler, ended, step_op, step_end, run_events, handlers,
}

-- The answer that the calls of a handler describe: all its headers, the first status, which is 200
-- if it wrote without one, and all its bytes.
abbrev pub headers_of : List Op → List (List ℕ × List ℕ)
headers_of [] = []
headers_of (adds k v ∷ ops) = (k, v) ∷ headers_of ops
headers_of (sets_status code ∷ ops) = headers_of ops
headers_of (writes b ∷ ops) = headers_of ops

abbrev pub status_of : List Op → ℕ
status_of [] = 0
status_of (adds k v ∷ ops) = status_of ops
status_of (sets_status code ∷ ops) = code
status_of (writes b ∷ ops) = 200

abbrev pub body_of : List Op → List ℕ
body_of [] = []
body_of (adds k v ∷ ops) = body_of ops
body_of (sets_status code ∷ ops) = body_of ops
body_of (writes b ∷ ops) = b ++ body_of ops

unfoldable pub answer_of : End → List Op → Sent
answer_of finished ops =
    response (headers_of ops) (if ltb 0 (status_of ops) then some (status_of ops) else none)
      (body_of ops)
answer_of deadline ops = timeout_problem

-- A writer that has answered stays so.
step_written :
    (e : Event) (tw : TimeoutWriter)
    → tw.written ≡ true
    → ((run_events (e ∷ []) tw).written ≡ true) × ((run_events (e ∷ []) tw).sent ≡ tw.sent)
unfolding run_events step_op step_end add_header write_header write_bytes start_ok flush time_out
    discard
step_written (handler (adds k v)) tw h = ground arith
step_written (handler (sets_status code)) tw h = ground arith
step_written (handler (writes b)) tw h = ground arith
step_written (ended finished) tw h = ground arith
step_written (ended deadline) tw h = ground arith

run_written :
    (events : List Event) (tw : TimeoutWriter)
    → tw.written ≡ true
    → (run_events events tw).sent ≡ tw.sent
unfolding run_events
run_written [] tw h = refl
run_written (handler op ∷ events) tw h =
    let (w, s) = step_written (handler op) tw h in run_written events (step_op op tw) w ∙ s
run_written (ended e ∷ events) tw h =
    let (w, s) = step_written (ended e) tw h in run_written events (step_end e tw) w ∙ s

end_written : (e : End) (tw : TimeoutWriter) → (step_end e tw).written ≡ true
unfolding step_end flush time_out discard
end_written finished tw = ground arith
end_written deadline tw = ground arith

-- The answer of a writer in the middle of a handler.
answer_from : End → TimeoutWriter → List Op → Sent
answer_from finished tw ops =
    let code = if tw.started then tw.code else status_of ops in
    response (tw.headers ++ headers_of ops) (if ltb 0 code then some code else none)
      (tw.buf ++ body_of ops)
answer_from deadline tw ops = timeout_problem

record IsOpen (tw : TimeoutWriter) : Type 0 where
  unwritten : tw.written ≡ false
  unsent : tw.sent ≡ []
  unstarted : tw.started ≡ false → tw.code ≡ 0

step_op-IsOpen : (op : Op) (tw : TimeoutWriter) → IsOpen tw → IsOpen (step_op op tw)
unfolding step_op add_header write_header write_bytes start_ok
step_op-IsOpen (adds k v) tw o = record {
  unwritten = o.unwritten;
  unsent = o.unsent;
  unstarted = o.unstarted;
}
step_op-IsOpen (sets_status code) tw o = ground (arith, o.unwritten, o.unsent)
step_op-IsOpen (writes b) tw o = ground (arith, o.unwritten, o.unsent)

step_op-answer_from :
    (e : End) (op : Op) (tw : TimeoutWriter) (ops : List Op)
    → IsOpen tw
    → answer_from e (step_op op tw) ops ≡ answer_from e tw (op ∷ ops)
unfolding step_op add_header write_header write_bytes start_ok answer_from
step_op-answer_from deadline op tw ops o = refl
step_op-answer_from finished (adds k v) tw ops o =
    rw (append_assoc tw.headers ((k, v) ∷ []) (headers_of ops)) refl
step_op-answer_from finished (sets_status code) tw ops o = elim (Bool-cases tw.started) [
  | inl s ↦ rw s refl
  | inr s ↦ rw s refl
]
step_op-answer_from finished (writes b) tw ops o = elim (Bool-cases tw.started) [
  | inl s ↦ rw (s, o.unwritten, append_assoc tw.buf b (body_of ops)) refl
  | inr s ↦ rw (s, o.unwritten, append_assoc tw.buf b (body_of ops)) refl
]

end_sent :
    (e : End) (tw : TimeoutWriter) → IsOpen tw → (step_end e tw).sent ≡ answer_from e tw [] ∷ []
unfolding step_end flush time_out discard answer_from status
end_sent finished tw o =
    let code : (if tw.started then tw.code else 0) ≡ tw.code = ground (arith, o.unstarted) in
    rw (code, append-nil tw.headers, append-nil tw.buf, flush, o.unwritten, o.unsent) refl
end_sent deadline tw o = ground (arith, o.unwritten, o.unsent)

answer_open :
    (ops : List Op) (tw : TimeoutWriter) (e : End) (after : List Event)
    → IsOpen tw
    → (run_events (handlers ops ++ ended e ∷ after) tw).sent ≡ answer_from e tw ops ∷ []
unfolding run_events handlers
answer_open [] tw e after o = run_written after (step_end e tw) (end_written e tw) ∙ end_sent e tw o
answer_open (op ∷ ops) tw e after o =
    rw (sym (step_op-answer_from e op tw ops o))
      (answer_open ops (step_op op tw) e after (step_op-IsOpen op tw o))

-- Whatever the handler calls before the first end, and whatever events follow it, the client gets
-- exactly one answer: the whole response that the calls before the end describe, if the handler has
-- finished, and the problem of a timeout, with nothing of the response, if the deadline has passed.
pub run_events-sent :
    (ops : List Op) (e : End) (after : List Event)
    → (run_events (handlers ops ++ ended e ∷ after) new_writer).sent ≡ answer_of e ops ∷ []
unfolding new_writer answer_of answer_from
run_events-sent ops finished after =
    answer_open ops new_writer finished after
      (record { unwritten = refl; unsent = refl; unstarted = λ h. refl })
run_events-sent ops deadline after =
    answer_open ops new_writer deadline after
      (record { unwritten = refl; unsent = refl; unstarted = λ h. refl })
