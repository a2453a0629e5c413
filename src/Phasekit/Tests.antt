-- ===== src/Phasekit/Tests.antt =====
-- A system whose CLI exports one secret.
use chassis_go.Prelude.{
  ℕ, ◌≡◌, refl, sym, ap, ◌∙◌, true, false, ◌==◌, text_comparable, nat_comparable, text, some, List,
  [], ◌∷◌, lookup, insert, lookup-insert, pos, arith, Bool-cases, inl, inr,
}
use chassis_go.Recency.Laws.{contains}
use chassis_go.Phasekit.{
  Env, Config, Report, Outcome, ok, System, found, output, validate_env_pair, contains_byte,
  apply_env, hydrate,
}
use chassis_go.Phasekit.Apply.{IsSetter, Sorts, Applied, apply_env-Applied}
use chassis_go.Phasekit.Secrets.{Covers, hydrate-Covers}

abbrev small_system : System ℕ
small_system = record {
  trim_space = λ s. s;
  look_path = λ s. some s;
  stat = λ s. found;
  run = λ path args env timeout. output (text "{}");
  parse_object = λ s. some (some ((text "KEY", 1) ∷ (text "OLD", 2) ∷ []));
  as_text = λ v. some (v ∷ []);
  sort = λ ks. ks;
  setenv = λ key value env. some (insert key value env);
}

small_system-IsSetter : IsSetter small_system
small_system-IsSetter = record {
  sets = λ key value env next k h.
      let same : next ≡ insert key value env = ground arith in
      ap (lookup k) same ∙ lookup-insert key k value env;
  succeeds = λ key value env v n. (insert key value env, refl);
}

small_system-Sorts : Sorts small_system
small_system-Sorts k ks = refl

abbrev two_secrets : Env
two_secrets = (text "KEY", 1 ∷ []) ∷ (text "OLD", 2 ∷ []) ∷ []

abbrev old_env : Env
old_env = (text "OLD", text "x") ∷ []

plain_keys :
    (k : List ℕ) → contains k (text "KEY" ∷ text "OLD" ∷ []) ≡ true → contains_byte 0 k ≡ false
unfolding contains contains_byte
plain_keys k h = elim (Bool-cases (text "KEY" == k)) [
  | inl key ↦ ap (contains_byte 0) (sym ((text_comparable.same_iff (text "KEY") k).0 key))
  | inr other ↦ elim (Bool-cases (text "OLD" == k)) [
    | inl old ↦ ap (contains_byte 0) (sym ((text_comparable.same_iff (text "OLD") k).0 old))
    | inr neither ↦ absurd (ground arith)
  ]
]

apply_env-Applied_example :
    Applied small_system two_secrets false old_env
      (apply_env small_system two_secrets false old_env)
unfolding chassis_go.Phasekit.keys_of
apply_env-Applied_example =
    apply_env-Applied small_system two_secrets false old_env small_system-IsSetter
      small_system-Sorts plain_keys

abbrev small_config : Config
small_config = record {
  service_token = text "t";
  app = text "a";
  env = text "Production";
  path = [];
  all_paths = false;
  required_keys = text "KEY" ∷ [];
  overwrite_existing = false;
  allow_redacted = false;
  binary_path = [];
  host = [];
  timeout = pos 0;
}

hydrate-Covers_example :
    Covers small_system small_config old_env (hydrate small_system small_config old_env)
hydrate-Covers_example =
    hydrate-Covers small_system small_config old_env small_system-IsSetter small_system-Sorts
