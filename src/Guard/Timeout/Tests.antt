-- ===== src/Guard/Timeout/Tests.antt =====
-- A handler that writes late.
use chassis_go.Prelude.{◌≡◌, List, [], ◌∷◌, ◌++◌, text}
use chassis_go.Guard.Timeout.{
  new_writer, Op, adds, sets_status, writes, finished, deadline, Event, handler, ended, run_events,
  handlers,
}
use chassis_go.Guard.Timeout.Answer.{answer_of, run_events-sent}

abbrev begun : List Op
begun = adds (text "A") (text "b") ∷ writes (text "par") ∷ sets_status 500 ∷ writes (text "t") ∷ []

abbrev later : List Event
later = handler (writes (text "more")) ∷ ended finished ∷ []

run_events-sent_example :
    (run_events (handlers begun ++ ended deadline ∷ later) new_writer).sent
    ≡ answer_of deadline begun ∷ []
run_events-sent_example = run_events-sent begun deadline later
