-- ===== src/Lifecycle/Pairing.antt =====
-- Every start has its stop.
use chassis_go.Prelude.{
  ℕ, ◌+◌, ◌≡◌, refl, Bool, true, false, Option, none, some, List, [], ◌∷◌, ◌++◌, if◌then◌else◌,
  arith, Option-cases, inl, inr,
}
use chassis_go.Lifecycle.{
  Arg, Options, World, Action, announce_stopping, replace_process, announce_started, run_components,
  shut_down, read_args, start_actions, stop_actions, attempts_exec, finish, main_part,
  with_publisher, or_name, resolve_name, with_kafka, with_options, after_init, start_run, run,
}

module _ {C : Type 0} where
  abbrev pub is_shut_down : Action C → Bool
  is_shut_down (shut_down reason) = true
  is_shut_down _ = false

  abbrev pub is_started : Action C → Bool
  is_started (announce_started name) = true
  is_started _ = false

  abbrev pub is_stopping : Action C → Bool
  is_stopping announce_stopping = true
  is_stopping _ = false

  abbrev pub is_run : Action C → Bool
  is_run (run_components cs) = true
  is_run _ = false

  -- How often an action of a kind is taken.
  abbrev pub count : (Action C → Bool) → List (Action C) → ℕ
  count p [] = 0
  count p (a ∷ rest_of) = let rest = count p rest_of in if p a then rest + 1 else rest

  count-append :
      (p : Action C → Bool) (xs ys : List (Action C)) → count p (xs ++ ys) ≡ count p xs + count p ys
  count-append p [] ys = omega arith
  count-append p (x ∷ xs) ys = ground (arith, count-append p xs ys)

  -- A run that shuts the registry down this many times, and announces that it stops as often as it
  -- announces that it has started.
  abbrev pub Paired : ℕ → List (Action C) → Type 0
  Paired n actions =
      (count is_shut_down actions ≡ n) × (count is_started actions ≡ count is_stopping actions)

module _ {E : Type 0} (w : World E) where
  finish_quiet :
      {C : Type 0} (restart : Bool) (p : Action C → Bool)
      → p replace_process ≡ false
      → count p (finish w restart).0 ≡ 0
  unfolding finish attempts_exec
  finish_quiet false p h = refl
  finish_quiet true p h = elim (Option-cases w.executable_error) [
    | inl found ↦ rw found (ground arith)
    | inr (e, lost) ↦ rw lost refl
  ]

  main_part-Paired :
      {C : Type 0} (cs : List C) (publishing : Bool) (source name : List ℕ)
      → Paired 1 (main_part w cs publishing source name).0
  unfolding main_part start_actions stop_actions
  main_part-Paired cs true source name = (
    ground (arith, finish_quiet w.restart is_shut_down refl),
    ground (arith, finish_quiet w.restart is_started refl, finish_quiet w.restart is_stopping refl),
  )
  main_part-Paired cs false source name = (
    ground (arith, finish_quiet w.restart is_shut_down refl),
    ground (arith, finish_quiet w.restart is_started refl, finish_quiet w.restart is_stopping refl),
  )

  with_publisher-Paired :
      {C : Type 0} (cs : List C) (publishing : Bool) (source name : List ℕ) (o : Option E)
      → Paired 1 (with_publisher w cs publishing source name o).0
  unfolding with_publisher
  with_publisher-Paired cs true source name (some e) = (refl, refl)
  with_publisher-Paired cs true source name none = main_part-Paired cs true source name
  with_publisher-Paired cs false source name o = main_part-Paired cs false source name

  with_kafka-Paired :
      {C : Type 0} (kafka : Option (Bool × List ℕ)) (cs : List C) (name : List ℕ)
      → Paired 1 (with_kafka w kafka cs name).0
  unfolding with_kafka
  with_kafka-Paired none cs name = with_publisher-Paired cs false [] name w.publisher_error
  with_kafka-Paired (some (enabled, source)) cs name =
      with_publisher-Paired cs enabled (or_name w source name) name w.publisher_error

  -- How often a run must shut down the registry.
  abbrev pub shutdowns : {A : Type 0} → Option A → Option E → ℕ
  shutdowns none o = 0
  shutdowns (some a) none = 1
  shutdowns (some a) (some e) = 0

  after_init-Paired :
      {C : Type 0} (init_error : Option E) (o : Options) (cs : List C)
      → Paired
          (shutdowns {A = Options × List C} (some (o, cs)) init_error)
          (after_init w init_error o cs).0
  unfolding after_init with_options
  after_init-Paired none o cs =
      with_kafka-Paired o.kafka cs (or_name w o.service_name (resolve_name w))
  after_init-Paired (some e) o cs = (refl, refl)

  start_run-Paired :
      {C : Type 0} (read : Option (Options × List C))
      → Paired (shutdowns read w.init_error) (start_run w read).0
  unfolding start_run
  start_run-Paired none = (refl, refl)
  start_run-Paired (some (o, cs)) = after_init-Paired w.init_error o cs

  -- Whatever the packages and the system answer, `Run` shuts the registry down exactly once if its
  -- arguments are of the types it knows and the registry could be initialized, and not at all
  -- otherwise; and it announces that the service stops exactly as often as it has announced that it
  -- has started.
  pub run-Paired :
      {C : Type 0} (args : List (Arg C))
      → Paired
          (shutdowns (read_args args (record { kafka = none; service_name = [] })) w.init_error)
          (run w args).0
  unfolding run
  run-Paired args = start_run-Paired (read_args args (record { kafka = none; service_name = [] }))
