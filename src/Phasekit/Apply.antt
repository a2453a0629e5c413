-- ===== src/Phasekit/Apply.antt =====
-- What applying the secrets does to the environment.
use chassis_go.Prelude.{
  ℕ, ◌≡◌, refl, sym, ◌∙◌, Bool, true, false, ◌==◌, ◌&&◌, ◌||◌, not, nat_comparable, text_comparable,
  Option, none, some, List, [], ◌∷◌, lookup, All, if◌then◌else◌, arith, Bool-cases, inl, inr,
}
use chassis_go.Recency.Laws.{contains}
use chassis_go.Phasekit.{
  Env, Report, PhaseError, Outcome, ok, err, bind, System, contains_byte, validate_env_pair,
  keys_of, value_of, is_set, skip_key, set_key, checked, choose, continue_set, set_all, finish,
  apply_chosen, apply_env,
}

abbrev pub OnOk : {A : Type 0} → (A → Type 0) → Outcome A → Type 0
OnOk P (ok a) = P a
OnOk P (err e) = Unit

abbrev pub Lists : Type 0
Lists = List (List ℕ) × List (List ℕ)

-- What the first loop has made of the keys.
pub record Chosen (secrets : Env) (overwrite : Bool) (env : Env) (keys : List (List ℕ))
    (lists : Lists) : Type 0 where
  pub split : (k : List ℕ) → contains k keys ≡ (contains k lists.0 || contains k lists.1)
  pub valid : All (λ k. validate_env_pair k (value_of secrets k) ≡ none) lists.0
  pub new : All (λ k. (not overwrite && is_set k env) ≡ false) lists.0
  pub old : All (λ k. is_set k env ≡ true) lists.1

module _ (secrets : Env) (overwrite : Bool) (env : Env) where
  skip_key-Chosen :
      (key : List ℕ) (keys : List (List ℕ)) (rest : Outcome Lists)
      → is_set key env ≡ true
      → OnOk (Chosen secrets overwrite env keys) rest
      → OnOk (Chosen secrets overwrite env (key ∷ keys)) (bind rest (skip_key key))
  unfolding skip_key bind contains
  skip_key-Chosen key keys (err e) o h = tt
  skip_key-Chosen key keys (ok (chosen, kept)) o h = record {
    split = λ k. ground (arith, h.split k);
    valid = h.valid;
    new = h.new;
    old = (o, h.old);
  }

  checked-Chosen :
      (key : List ℕ) (keys : List (List ℕ)) (fault : Option PhaseError) (rest : Outcome Lists)
      → validate_env_pair key (value_of secrets key) ≡ fault
      → (not overwrite && is_set key env) ≡ false
      → OnOk (Chosen secrets overwrite env keys) rest
      → OnOk (Chosen secrets overwrite env (key ∷ keys)) (checked fault key rest)
  unfolding set_key checked bind contains
  checked-Chosen key keys (some e) rest v n h = tt
  checked-Chosen key keys none (err e) v n h = tt
  checked-Chosen key keys none (ok (chosen, kept)) v n h = record {
    split = λ k. ground (arith, h.split k);
    valid = (v, h.valid);
    new = (n, h.new);
    old = h.old;
  }

  pub choose-Chosen :
      (keys : List (List ℕ))
      → OnOk (Chosen secrets overwrite env keys) (choose keys secrets overwrite env)
  unfolding choose contains
  choose-Chosen [] = record { split = λ k. refl; valid = tt; new = tt; old = tt }
  choose-Chosen (key ∷ keys) =
      let rest = choose keys secrets overwrite env in
      elim (Bool-cases (not overwrite && is_set key env)) [
        | inl skip ↦ rw skip (skip_key-Chosen key keys rest (ground arith) (choose-Chosen keys))
        | inr use_it ↦ rw use_it (
            checked-Chosen key keys (validate_env_pair key (value_of secrets key)) rest refl use_it
              (choose-Chosen keys))
      ]

module _ {V : Type 0} (sys : System V) where
  -- `os.Setenv`: a variable that is set has its value and no other has changed, and a key without the
  -- byte 0 that is valid with its value can be set.
  pub record IsSetter : Type 0 where
    pub sets :
        (key value : List ℕ) (env next : Env) (k : List ℕ)
        → sys.setenv key value env ≡ some next
        → lookup k next ≡ (if key == k then some value else lookup k env)
    pub succeeds :
        (key value : List ℕ) (env : Env)
        → validate_env_pair key value ≡ none
        → contains_byte 0 key ≡ false
        → (next : Env) × (sys.setenv key value env ≡ some next)

  set_all_result :
      (keys : List (List ℕ)) (secrets env : Env)
      → IsSetter
      → All (λ k. validate_env_pair k (value_of secrets k) ≡ none) keys
      → All (λ k. contains_byte 0 k ≡ false) keys
      → ((set_all sys keys secrets env).1 ≡ none)
        × ((k : List ℕ)
            → lookup k (set_all sys keys secrets env).0
              ≡ (if contains k keys then some (value_of secrets k) else lookup k env))
  unfolding set_all continue_set contains
  set_all_result [] secrets env s v n = (refl, λ k. refl)
  set_all_result (key ∷ keys) secrets env s v n =
      let value = value_of secrets key in
      let (next, done) = s.succeeds key value env v.0 n.0 in
      let (fine, after) = set_all_result keys secrets next s v.1 n.1 in
      rw done (
        fine,
        λ k.
            ground
              (arith, after k, s.sets key value env next k done, text_comparable.same_iff key k),
      )

  -- What an application of the secrets may do: it fails and leaves the environment as it was, or it
  -- sets the keys that it reports to have set and no other, each key of the secrets has been set or
  -- skipped, and no key that was set before is set unless it may be overwritten.
  abbrev pub Applied : Env → Bool → Env → Env × Outcome Report → Type 0
  Applied secrets overwrite env (next, err e) = next ≡ env
  Applied secrets overwrite env (next, ok report) =
      ((k : List ℕ)
        → lookup k next
          ≡ (if contains k report.set_keys then some (value_of secrets k) else lookup k env))
      × ((k : List ℕ)
          → contains k (keys_of secrets)
            ≡ (contains k report.set_keys || contains k report.skipped))
      × All (λ k. (not overwrite && is_set k env) ≡ false) report.set_keys

  -- `sort.Strings` keeps the members.
  abbrev pub Sorts : Type 0
  Sorts = (k : List ℕ) (ks : List (List ℕ)) → contains k (sys.sort ks) ≡ contains k ks

  All_of :
      (keys : List (List ℕ))
      → ((k : List ℕ) → contains k keys ≡ true → contains_byte 0 k ≡ false)
      → All (λ k. contains_byte 0 k ≡ false) keys
  unfolding contains
  All_of [] h = tt
  All_of (key ∷ keys) h =
      let here : (key == key) ≡ true = (text_comparable.same_iff key key).1 refl in
      (h key (rw here refl), All_of keys (λ k g. h k (ground arith)))

  finish-Applied :
      (secrets : Env) (overwrite : Bool) (env : Env) (lists : Lists)
      (done : Env × Option PhaseError)
      → Chosen secrets overwrite env (keys_of secrets) lists
      → done.1 ≡ none
      → ((k : List ℕ)
          → lookup k done.0
            ≡ (if contains k lists.0 then some (value_of secrets k) else lookup k env))
      → Applied secrets overwrite env (finish sys lists done)
  unfolding finish
  finish-Applied secrets overwrite env (chosen, kept) (next, some e) c f h = cc
  finish-Applied secrets overwrite env (chosen, kept) (next, none) c f h = (h, c.split, c.new)

  apply_chosen-Applied :
      (secrets : Env) (overwrite : Bool) (env : Env) (choice : Outcome Lists)
      → IsSetter
      → ((k : List ℕ) → contains k (keys_of secrets) ≡ true → contains_byte 0 k ≡ false)
      → OnOk (Chosen secrets overwrite env (keys_of secrets)) choice
      → Applied secrets overwrite env (apply_chosen sys choice secrets env)
  unfolding apply_chosen
  apply_chosen-Applied secrets overwrite env (err e) s n c = refl
  apply_chosen-Applied secrets overwrite env (ok lists) s n c =
      let plain = All_of lists.0 (λ k h. n k (ground (arith, c.split k))) in
      let (fine, after) = set_all_result lists.0 secrets env s c.valid plain in
      finish-Applied secrets overwrite env lists (set_all sys lists.0 secrets env) c fine after

  pub sorted-Chosen :
      (secrets : Env) (overwrite : Bool) (env : Env) (choice : Outcome Lists)
      → Sorts
      → OnOk (Chosen secrets overwrite env (sys.sort (keys_of secrets))) choice
      → OnOk (Chosen secrets overwrite env (keys_of secrets)) choice
  sorted-Chosen secrets overwrite env (err e) s c = tt
  sorted-Chosen secrets overwrite env (ok lists) s c = record {
    split = λ k. sym (s k (keys_of secrets)) ∙ c.split k;
    valid = c.valid;
    new = c.new;
    old = c.old;
  }

  -- Secrets whose keys have no byte 0 are applied all or not at all. If the application fails, the
  -- environment is as it was. If not, the keys reported as set have the values of the secrets and every
  -- other variable is as it was, each key of the secrets is reported as set or as skipped, and no
  -- variable that existed is set without the leave to overwrite.
  pub apply_env-Applied :
      (secrets : Env) (overwrite : Bool) (env : Env)
      → IsSetter
      → Sorts
      → ((k : List ℕ) → contains k (keys_of secrets) ≡ true → contains_byte 0 k ≡ false)
      → Applied secrets overwrite env (apply_env sys secrets overwrite env)
  unfolding apply_env
  apply_env-Applied secrets overwrite env s o n =
      let keys = sys.sort (keys_of secrets) in
      let choice = choose keys secrets overwrite env in
      apply_chosen-Applied secrets overwrite env choice s n
        (sorted-Chosen secrets overwrite env choice o (choose-Chosen secrets overwrite env keys))
