-- ===== src/Phasekit/Secrets.antt =====
-- What hydration keeps and what it promises.
use chassis_go.Prelude.{
  ℕ, ◌≡◌, refl, ap, sym, ◌∙◌, ◌⊎◌, inl, inr, Bool, true, false, ◌==◌, ◌&&◌, nat_comparable,
  text_comparable, is_empty, text, not, if◌then◌else◌, Option, none, some, List, [], ◌∷◌, lookup,
  All, All-imp, arith, Option-cases, Bool-cases,
}
use chassis_go.Recency.Laws.{contains}
use chassis_go.Phasekit.{
  Env, Config, Report, PhaseError, is_missing, fallback, Outcome, ok, err, bind, System, keys_of,
  value_of, is_set, choose, continue_set, set_all, finish, apply_chosen, apply_env, apply_defaults,
  missing, validate_required_keys, parse_secrets, secrets_of, export_secrets, apply_secrets,
  hydrate, is_blank, absent, unavailable, found, Stat, Cli, late, failed, output, phase_cli,
  from_look, from_stat, from_cli, resolve_binary, validate, read_value, read_values, read_object,
  contains_byte,
}
use chassis_go.Phasekit.Apply.{OnOk, Lists, Chosen, choose-Chosen, IsSetter, Sorts, sorted-Chosen}

contains-keys_of :
    (secrets : Env) (k : List ℕ) → is_set k secrets ≡ true → contains k (keys_of secrets) ≡ true
unfolding is_set lookup contains keys_of
contains-keys_of [] k h = cc
contains-keys_of ((j, w) ∷ secrets) k h = ground (arith, contains-keys_of secrets k)

module _ {V : Type 0} (sys : System V) where
  set_all_others :
      (keys : List (List ℕ)) (secrets env : Env) (k : List ℕ)
      → IsSetter sys
      → contains k keys ≡ false
      → lookup k (set_all sys keys secrets env).0 ≡ lookup k env
  unfolding set_all continue_set contains
  set_all_others [] secrets env k s out = refl
  set_all_others (key ∷ keys) secrets env k s out =
      let value = value_of secrets key in
      elim (Option-cases (sys.setenv key value env)) [
        | inl stuck ↦ rw stuck refl
        | inr (next, done) ↦
            let rest = set_all_others keys secrets next k s (ground arith) in
            rw done (rest ∙ ground (arith, s.sets key value env next k done))
      ]

  finish_env : (lists : Lists) (done : Env × Option PhaseError) → (finish sys lists done).0 ≡ done.0
  unfolding finish
  finish_env (chosen, kept) (next, none) = refl
  finish_env (chosen, kept) (next, some e) = refl

  new_absent :
      (keys : List (List ℕ)) (env : Env) (k v : List ℕ)
      → All (λ j. (true && is_set j env) ≡ false) keys
      → lookup k env ≡ some v
      → contains k keys ≡ false
  unfolding contains is_set
  new_absent [] env k v new h = refl
  new_absent (key ∷ keys) env k v new h = elim (Bool-cases (key == k)) [
    | inl same ↦
        let eq : key ≡ k = (text_comparable.same_iff key k).0 same in
        let kept : is_set k env ≡ false = ap (λ j. is_set j env) (sym eq) ∙ new.0 in
        absurd (ground arith)
    | inr other ↦ rw other (new_absent keys env k v new.1 h)
  ]

  apply_chosen_keeps :
      (secrets env : Env) (k v : List ℕ) (keys : List (List ℕ)) (choice : Outcome Lists)
      → IsSetter sys
      → OnOk (Chosen secrets false env keys) choice
      → lookup k env ≡ some v
      → lookup k (apply_chosen sys choice secrets env).0 ≡ some v
  unfolding apply_chosen
  apply_chosen_keeps secrets env k v keys (err e) s c h = h
  apply_chosen_keeps secrets env k v keys (ok lists) s c h =
      let out = new_absent lists.0 env k v c.new h in
      ap (lookup k) (finish_env lists (set_all sys lists.0 secrets env))
      ∙ set_all_others lists.0 secrets env k s out
      ∙ h

  apply_secrets_keeps :
      (overwrite : Bool) (read : Outcome Env) (env : Env) (k v : List ℕ)
      → IsSetter sys
      → overwrite ≡ false
      → lookup k env ≡ some v
      → lookup k (apply_secrets sys overwrite read env).0 ≡ some v
  unfolding apply_secrets apply_env
  apply_secrets_keeps true read env k v s off h = cc
  apply_secrets_keeps false (ok secrets) env k v s off h =
      let keys = sys.sort (keys_of secrets) in
      apply_chosen_keeps secrets env k v keys (choose keys secrets false env) s
        (choose-Chosen secrets false env keys) h
  apply_secrets_keeps false (err e) env k v s off h = h

  -- Unless overwriting is asked for, a variable that the environment has keeps its value through a
  -- hydration, whatever comes of it.
  pub hydrate_keeps :
      (cfg : Config) (env : Env) (k v : List ℕ)
      → IsSetter sys
      → cfg.overwrite_existing ≡ false
      → lookup k env ≡ some v
      → lookup k (hydrate sys cfg env).0 ≡ some v
  unfolding hydrate apply_defaults
  hydrate_keeps cfg env k v s off h =
      let full = apply_defaults cfg in
      let read = bind (export_secrets sys full env) (secrets_of sys full) in
      apply_secrets_keeps cfg.overwrite_existing read env k v s off h

  -- The phase CLI is not there: the one named `phase` of PATH, the file at a path with a slash, or the
  -- one of that name of PATH.
  abbrev pub CliMissing : List ℕ → Type 0
  CliMissing path =
      ((is_empty path ≡ true) × (sys.look_path (text "phase") ≡ none))
      ⊎ ((is_empty path ≡ false) × (contains_byte b'/' path ≡ true) × (sys.stat path ≡ absent))
      ⊎ ((is_empty path ≡ false) × (contains_byte b'/' path ≡ false) × (sys.look_path path ≡ none))

  -- What a success has made of the environment.
  abbrev pub Covers : Config → Env → Env × Outcome Report → Type 0
  Covers cfg env (next, err e) = Unit
  Covers cfg env (next, ok report) =
      (CliMissing cfg.binary_path × (report ≡ fallback) × (next ≡ env))
      ⊎ ((report.source ≡ phase_cli) × All (λ k. is_set k next ≡ true) cfg.required_keys)

  -- An outcome that is an error for want of the CLI only if there is none.
  Told : {A : Type 0} → List ℕ → Outcome A → Type 0
  Told path (ok a) = Unit
  Told path (err e) = is_missing e ≡ true → CliMissing path

  bind-Told :
      {A B : Type 0} (path : List ℕ) (o : Outcome A) (f : A → Outcome B)
      → Told path o
      → ((a : A) → Told path (f a))
      → Told path (bind o f)
  unfolding bind Told
  bind-Told path (ok a) f t h = h a
  bind-Told path (err e) f t h = t

  from_look-Told :
      (path : List ℕ) (o : Option (List ℕ)) → (o ≡ none → CliMissing path) → Told path (from_look o)
  unfolding from_look Told
  from_look-Told path none h = λ gone. h refl
  from_look-Told path (some found_at) h = tt

  from_stat-Told :
      (path : List ℕ) (s : Stat) → (s ≡ absent → CliMissing path) → Told path (from_stat path s)
  unfolding from_stat Told is_missing
  from_stat-Told path found h = tt
  from_stat-Told path absent h = λ gone. h refl
  from_stat-Told path unavailable h = λ gone. cc

  resolve_binary-Told : (path : List ℕ) → Told path (resolve_binary sys path)
  unfolding resolve_binary
  resolve_binary-Told path = elim (Bool-cases (is_empty path)) [
    | inl blank ↦
        rw blank (from_look-Told path (sys.look_path (text "phase")) (λ gone. inl (blank, gone)))
    | inr named ↦ elim (Bool-cases (contains_byte b'/' path)) [
      | inl slash ↦
          rw (named, slash)
            (from_stat-Told path (sys.stat path) (λ gone. inr (inl (named, slash, gone))))
      | inr plain ↦
          rw (named, plain)
            (from_look-Told path (sys.look_path path) (λ gone. inr (inr (named, plain, gone))))
    ]
  ]

  validate-Told : (path : List ℕ) (cfg : Config) (at : List ℕ) → Told path (validate sys cfg at)
  unfolding validate Told is_missing
  validate-Told path cfg at = elim (Bool-cases (is_blank sys cfg.app)) [
    | inl blank ↦ rw blank (λ gone. cc)
    | inr app ↦ elim (Bool-cases (is_blank sys cfg.env)) [
      | inl blank ↦ rw (app, blank) (λ gone. cc)
      | inr in_env ↦ elim (Bool-cases (is_blank sys cfg.service_token)) [
        | inl blank ↦ rw (app, in_env, blank) (λ gone. cc)
        | inr token ↦ rw (app, in_env, token) tt
      ]
    ]
  ]

  from_cli-Told : (path : List ℕ) (c : Cli) → Told path (from_cli c)
  unfolding from_cli Told is_missing
  from_cli-Told path late = λ gone. cc
  from_cli-Told path failed = λ gone. cc
  from_cli-Told path (output out) = tt

  export_secrets-Told :
      (cfg : Config) (env : Env) → Told cfg.binary_path (export_secrets sys cfg env)
  unfolding export_secrets
  export_secrets-Told cfg env =
      bind-Told cfg.binary_path (resolve_binary sys cfg.binary_path) _
        (resolve_binary-Told cfg.binary_path)
        (λ binary.
          bind-Told cfg.binary_path (validate sys cfg binary) _
            (validate-Told cfg.binary_path cfg binary) (λ at. from_cli-Told cfg.binary_path _))

  read_value-Told :
      (path : List ℕ) (allowed : Bool) (key : List ℕ) (o : Option (List ℕ)) (rest : Outcome Env)
      → Told path rest
      → Told path (read_value sys allowed key o rest)
  unfolding read_value Told is_missing
  read_value-Told path allowed key none rest t = λ gone. cc
  read_value-Told path allowed key (some val) rest t =
      elim (Bool-cases ((val == text "[REDACTED]") && not allowed)) [
        | inl hidden ↦ rw hidden (λ gone. cc)
        | inr shown ↦ rw shown (bind-Told path rest _ t (λ secrets. tt))
      ]

  read_values-Told :
      (path : List ℕ) (allowed : Bool) (object : List (List ℕ × V))
      → Told path (read_values sys allowed object)
  unfolding read_values Told
  read_values-Told path allowed [] = tt
  read_values-Told path allowed ((key, raw) ∷ object) =
      read_value-Told path allowed key (sys.as_text raw) (read_values sys allowed object)
        (read_values-Told path allowed object)

  read_object-Told :
      (path : List ℕ) (allowed : Bool) (o : Option (Option (List (List ℕ × V))))
      → Told path (read_object sys allowed o)
  unfolding read_object Told is_missing
  read_object-Told path allowed none = λ gone. cc
  read_object-Told path allowed (some none) = λ gone. cc
  read_object-Told path allowed (some (some object)) = read_values-Told path allowed object

  validate_required_keys-Told :
      (path : List ℕ) (required : List (List ℕ)) (secrets : Env)
      → Told path (validate_required_keys sys required secrets)
  unfolding validate_required_keys Told is_missing
  validate_required_keys-Told path required secrets =
      elim (Bool-cases (is_empty (missing secrets required))) [
        | inl all ↦ rw all tt
        | inr some_missing ↦ rw some_missing (λ gone. cc)
      ]

  secrets_of-Told :
      (path : List ℕ) (cfg : Config) (out : List ℕ) → Told path (secrets_of sys cfg out)
  unfolding secrets_of parse_secrets
  secrets_of-Told path cfg out =
      bind-Told path (parse_secrets sys out cfg.allow_redacted) _
        (read_object-Told path cfg.allow_redacted (sys.parse_object out))
        (validate_required_keys-Told path cfg.required_keys)

  -- What the second loop leaves when it comes to its end.
  set_all_ended :
      (keys : List (List ℕ)) (secrets env : Env) (k : List ℕ)
      → IsSetter sys
      → (set_all sys keys secrets env).1 ≡ none
      → lookup k (set_all sys keys secrets env).0
        ≡ (if contains k keys then some (value_of secrets k) else lookup k env)
  unfolding set_all continue_set contains
  set_all_ended [] secrets env k s ended = refl
  set_all_ended (key ∷ keys) secrets env k s ended =
      let value = value_of secrets key in
      elim (Option-cases (sys.setenv key value env)) [
        | inl stuck ↦ absurd (ground arith)
        | inr (next, done) ↦
            let rest = set_all_ended keys secrets next k s (ground arith) in
            rw done (
              ground
                (arith, rest, s.sets key value env next k done, text_comparable.same_iff key k))
      ]

  old_set :
      (k : List ℕ) (env : Env) (kept : List (List ℕ))
      → All (λ j. is_set j env ≡ true) kept
      → contains k kept ≡ true
      → is_set k env ≡ true
  unfolding contains
  old_set k env [] old h = cc
  old_set k env (j ∷ kept) old h = elim (Bool-cases (j == k)) [
    | inl same ↦
        let eq : j ≡ k = (text_comparable.same_iff j k).0 same in
        ap (λ i. is_set i env) (sym eq) ∙ old.0
    | inr other ↦ old_set k env kept old.1 (ground arith)
  ]

  found_after :
      (secrets : Env) (overwrite : Bool) (env next : Env) (lists : Lists) (k : List ℕ)
      → Chosen secrets overwrite env (keys_of secrets) lists
      → lookup k next ≡ (if contains k lists.0 then some (value_of secrets k) else lookup k env)
      → contains k (keys_of secrets) ≡ true
      → is_set k next ≡ true
  unfolding is_set
  found_after secrets overwrite env next lists k c after here =
      elim (Bool-cases (contains k lists.0)) [
        | inl chosen ↦ ground (arith, after, chosen)
        | inr unchosen ↦
            let kept = old_set k env lists.1 c.old (ground (arith, c.split k)) in
            ground (arith, after, unchosen, kept)
      ]

  missing_none :
      (required : List (List ℕ)) (secrets : Env)
      → is_empty (missing secrets required) ≡ true
      → All (λ k. contains k (keys_of secrets) ≡ true) required
  unfolding missing
  missing_none [] secrets h = tt
  missing_none (k ∷ required) secrets h = elim (Bool-cases (is_set k secrets)) [
    | inr absent_key ↦ absurd (ground arith)
    | inl here ↦ (contains-keys_of secrets k here, missing_none required secrets (ground arith))
  ]

  finish-Covers :
      (cfg : Config) (secrets : Env) (overwrite : Bool) (env : Env) (lists : Lists)
      (done : Env × Option PhaseError)
      → Chosen secrets overwrite env (keys_of secrets) lists
      → (done.1 ≡ none
          → (k : List ℕ)
          → lookup k done.0
            ≡ (if contains k lists.0 then some (value_of secrets k) else lookup k env))
      → All (λ k. contains k (keys_of secrets) ≡ true) cfg.required_keys
      → Covers cfg env (finish sys lists done)
  unfolding finish
  finish-Covers cfg secrets overwrite env (chosen, kept) (next, none) c after all = inr (
    refl,
    All-imp cfg.required_keys
        (λ k. found_after secrets overwrite env next (chosen, kept) k c (after refl k)) all,
  )
  finish-Covers cfg secrets overwrite env (chosen, kept) (next, some e) c after all = tt

  apply_chosen-Covers :
      (cfg : Config) (secrets : Env) (overwrite : Bool) (env : Env) (choice : Outcome Lists)
      → IsSetter sys
      → OnOk (Chosen secrets overwrite env (keys_of secrets)) choice
      → All (λ k. contains k (keys_of secrets) ≡ true) cfg.required_keys
      → Covers cfg env (apply_chosen sys choice secrets env)
  unfolding apply_chosen
  apply_chosen-Covers cfg secrets overwrite env (err e) s c all = tt
  apply_chosen-Covers cfg secrets overwrite env (ok lists) s c all =
      finish-Covers cfg secrets overwrite env lists (set_all sys lists.0 secrets env) c
        (λ ended k. set_all_ended lists.0 secrets env k s ended) all

  validated :
      (required : List (List ℕ)) (secrets : Env)
      → OnOk
          (λ got. All (λ k. contains k (keys_of got) ≡ true) required)
          (validate_required_keys sys required secrets)
  unfolding validate_required_keys
  validated required secrets = elim (Bool-cases (is_empty (missing secrets required))) [
    | inl all ↦ rw all (missing_none required secrets all)
    | inr some_missing ↦ rw some_missing tt
  ]

  bind_on :
      {A B : Type 0} (o : Outcome A) (f : A → Outcome B) (P : B → Type 0)
      → ((a : A) → OnOk P (f a))
      → OnOk P (bind o f)
  unfolding bind
  bind_on (ok a) f P h = h a
  bind_on (err e) f P h = tt

  secrets_of-Held :
      (cfg : Config) (out : List ℕ)
      → OnOk
          (λ got. All (λ k. contains k (keys_of got) ≡ true) cfg.required_keys)
          (secrets_of sys cfg out)
  unfolding secrets_of
  secrets_of-Held cfg out =
      bind_on (parse_secrets sys out cfg.allow_redacted) _ _ (validated cfg.required_keys)

  apply_secrets-Covers :
      (cfg : Config) (overwrite : Bool) (read : Outcome Env) (env : Env)
      → IsSetter sys
      → Sorts sys
      → Told cfg.binary_path read
      → OnOk (λ got. All (λ k. contains k (keys_of got) ≡ true) cfg.required_keys) read
      → Covers cfg env (apply_secrets sys overwrite read env)
  unfolding apply_secrets apply_env Told
  apply_secrets-Covers cfg overwrite (err e) env s o told all = elim (Bool-cases (is_missing e)) [
    | inl gone ↦ rw gone (inl (told gone, refl, refl))
    | inr other ↦ rw other tt
  ]
  apply_secrets-Covers cfg overwrite (ok secrets) env s o told all =
      let keys = sys.sort (keys_of secrets) in
      let choice = choose keys secrets overwrite env in
      apply_chosen-Covers cfg secrets overwrite env choice s
        (sorted-Chosen sys secrets overwrite env choice o
          (choose-Chosen secrets overwrite env keys))
        all

  -- A hydration that succeeds falls back, with the environment as it was, only if the phase CLI is not
  -- there; otherwise every required key is a variable of the environment that it leaves.
  pub hydrate-Covers :
      (cfg : Config) (env : Env) → IsSetter sys → Sorts sys → Covers cfg env (hydrate sys cfg env)
  unfolding hydrate apply_defaults
  hydrate-Covers cfg env s o =
      let full = apply_defaults cfg in
      let Held : Env → Type 0 =
        λ got. All (λ k. contains k (keys_of got) ≡ true) cfg.required_keys in
      apply_secrets-Covers cfg cfg.overwrite_existing _ env s o
        (bind-Told cfg.binary_path (export_secrets sys full env) (secrets_of sys full)
          (export_secrets-Told full env) (secrets_of-Told cfg.binary_path full))
        (bind_on (export_secrets sys full env) (secrets_of sys full) Held (secrets_of-Held full))
