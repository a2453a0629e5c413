-- ===== src/Lifecycle/Tests.antt =====
-- A run of one component with a publisher.
use chassis_go.Prelude.{ℕ, true, false, text, none, some, List, [], ◌∷◌}
use chassis_go.Lifecycle.{Arg, component, kafka_config, World, read_args, run}
use chassis_go.Lifecycle.Pairing.{Paired, shutdowns, run-Paired}

abbrev quiet : World ℕ
quiet = record {
  show = λ e. e ∷ [];
  env_name = text "s";
  directory_name = none;
  init_error = none;
  publisher_error = none;
  wait_error = some 7;
  signalled = false;
  cancelled = false;
  restart = true;
  executable_error = none;
  exec_error = none;
}

abbrev two_args : List (Arg ℕ)
two_args = component 1 ∷ kafka_config true [] ∷ []

run-Paired_example :
    Paired
      (shutdowns quiet (read_args two_args (record { kafka = none; service_name = [] })) none)
      (run quiet two_args).0
run-Paired_example = run-Paired quiet two_args
