-- ===== src/Lifecycle.antt =====
-- lifecycle/lifecycle.go: the run of components between the start and the shutdown of the registry.
-- What `Run` does to the other packages is the list of its actions; what they and the system answer,
-- the results of the groups of goroutines among it, is a parameter. The deferred shutdown of the
-- registry, which a flag guards, stands where it runs in the list.
pub mod Pairing
pub mod Tests
use chassis_go.Prelude.{
  ℕ, Bool, true, false, ◌&&◌, not, text, is_empty, Option, none, some, List, [], ◌∷◌, ◌++◌,
  if◌then◌else◌,
}

-- The arguments of `Run`: a component, the options, or a value of another type.
pub data Arg (C : Type 0) : Type 0 where
  component : C → Arg C
  kafka_config : Bool → List ℕ → Arg C
  named : List ℕ → Arg C
  unsupported : Arg C

-- `options`; the Kafka configuration is whether it is enabled, and its source.
pub record Options : Type 0 where
  pub kafka : Option (Bool × List ℕ)
  pub service_name : List ℕ

-- `E` is an error.
pub record World (E : Type 0) : Type 0 where
  pub show : E → List ℕ
  pub env_name : List ℕ
  pub directory_name : Option (List ℕ)
  pub init_error : Option E
  pub publisher_error : Option E
  pub wait_error : Option E
  pub signalled : Bool
  pub cancelled : Bool
  pub restart : Bool
  pub executable_error : Option E
  pub exec_error : Option E

pub data Action (C : Type 0) : Type 0 where
  init_registry stop_heartbeat announce_stopping close_publisher replace_process : Action C
  open_publisher start_heartbeat announce_started : List ℕ → Action C
  run_components : List C → Action C
  shut_down : List ℕ → Action C

pub data Failure (E : Type 0) : Type 0 where
  registry_failed publisher_failed component_failed no_executable exec_failed : E → Failure E

-- How `Run` ends; the process that is replaced does not return.
pub data End (E : Type 0) : Type 0 where
  panicked replaced : End E
  returned : Option (Failure E) → End E

module _ {C : Type 0} where
  take_component : C → Option (Options × List C) → Option (Options × List C)
  take_component c none = none
  take_component c (some (o, cs)) = some (o, c ∷ cs)

  -- The loop over the arguments; none is its panic.
  pub read_args : List (Arg C) → Options → Option (Options × List C)
  unfolding take_component
  read_args [] o = some (o, [])
  read_args (component c ∷ args) o = take_component c (read_args args o)
  read_args (kafka_config enabled source ∷ args) o =
      read_args args (record o { kafka = some (enabled, source) })
  read_args (named name ∷ args) o = read_args args (record o { service_name = name })
  read_args (unsupported ∷ args) o = none

  -- The actions around a publisher, whose service has this name.
  start_actions : Bool → List ℕ → List ℕ → List (Action C)
  start_actions false source name = []
  start_actions true source name =
      open_publisher source ∷ start_heartbeat name ∷ announce_started name ∷ []

  stop_actions : Bool → List (Action C)
  stop_actions false = []
  stop_actions true = announce_stopping ∷ stop_heartbeat ∷ close_publisher ∷ []

module _ {E : Type 0} (w : World E) where
  -- `resolveName`.
  pub resolve_name : List ℕ
  resolve_name =
      if is_empty w.env_name
      then elim w.directory_name [ none ↦ text "unknown" | some name ↦ name ]
      else w.env_name

  -- The reason of the shutdown.
  pub reason : List ℕ
  reason =
      if w.signalled && not w.cancelled
      then text "signal"
      else elim w.wait_error [ none ↦ text "clean" | some e ↦ w.show e ]

  ended : Option E → End E
  ended none = returned none
  ended (some e) = returned (some (component_failed e))

  replace : Option E → Option E → End E
  replace (some e) exec = returned (some (no_executable e))
  replace none (some e) = returned (some (exec_failed e))
  replace none none = replaced

  attempts_exec : Option E → Bool
  attempts_exec none = true
  attempts_exec (some e) = false

  -- After the shutdown: the restart, if one was asked for.
  finish : {C : Type 0} → Bool → List (Action C) × End E
  unfolding ended replace attempts_exec
  finish true = (
    if attempts_exec w.executable_error then replace_process ∷ [] else [],
    replace w.executable_error w.exec_error,
  )
  finish false = ([], ended w.wait_error)

  -- The run with its components, whether it has a publisher, and the source of its events.
  main_part : {C : Type 0} → List C → Bool → List ℕ → List ℕ → List (Action C) × End E
  unfolding finish start_actions stop_actions reason
  main_part cs publishing source name =
      let (tail, end) = finish w.restart in
      (
        start_actions publishing source name
            ++ run_components cs ∷ (stop_actions publishing ++ shut_down (reason) ∷ tail),
        end,
      )

  -- From the publisher on.
  with_publisher :
      {C : Type 0} → List C → Bool → List ℕ → List ℕ → Option E → List (Action C) × End E
  unfolding main_part
  with_publisher cs true source name (some e) = (
    open_publisher source ∷ shut_down (text "startup failed") ∷ [],
    returned (some (publisher_failed e)),
  )
  with_publisher cs true source name none = main_part cs true source name
  with_publisher cs false source name o = main_part cs false source name

  or_name : List ℕ → List ℕ → List ℕ
  or_name [] name = name
  or_name (c ∷ s) name = c ∷ s

  with_kafka : {C : Type 0} → Option (Bool × List ℕ) → List C → List ℕ → List (Action C) × End E
  unfolding with_publisher or_name
  with_kafka none cs name = with_publisher cs false [] name w.publisher_error
  with_kafka (some (enabled, source)) cs name =
      with_publisher cs enabled (or_name source name) name w.publisher_error

  with_options : {C : Type 0} → Options → List C → List (Action C) × End E
  unfolding with_kafka or_name
  with_options o cs = with_kafka o.kafka cs (or_name o.service_name resolve_name)

  after_init : {C : Type 0} → Option E → Options → List C → List (Action C) × End E
  unfolding with_options
  after_init (some e) o cs = (init_registry ∷ [], returned (some (registry_failed e)))
  after_init none o cs = let (actions, end) = with_options o cs in (init_registry ∷ actions, end)

  start_run : {C : Type 0} → Option (Options × List C) → List (Action C) × End E
  unfolding after_init
  start_run none = ([], panicked)
  start_run (some (o, cs)) = after_init w.init_error o cs

  -- `Run`.
  pub run : {C : Type 0} → List (Arg C) → List (Action C) × End E
  unfolding start_run
  run args = start_run (read_args args (record { kafka = none; service_name = [] }))
