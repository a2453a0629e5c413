-- ===== src/Deploy/Tests.antt =====
-- A file system with one deploy directory.
use chassis_go.Prelude.{
  ℕ, ◌≡◌, refl, true, false, ◌==◌, text_comparable, text, none, some, List, [], ◌∷◌, ◌++◌, lookup,
  insert, lookup-insert, if◌then◌else◌, arith, ap, ◌∙◌, has_prefix,
}
use chassis_go.Deploy.{Texts, Deploy, System, Dependency, candidates, discover}
use chassis_go.Deploy.EnvFile.{parse_line, load_env}
use chassis_go.Deploy.EnvFile.Lines.{Trims, parse_line-quoted}
use chassis_go.Deploy.EnvFile.Loading.{
  can_set, settable, IsSetter, or_else, file_vars, lookup-load_env,
}
use chassis_go.Deploy.Content.{is_hook_name, run_hook, executed}

abbrev bare_dependency : Dependency
bare_dependency = record {
  service = text "db";
  endpoint = [];
  protocol = [];
  port = 1;
  required = none;
}

abbrev small : System
small = record {
  exists = λ path. true;
  is_dir = λ path. path == text "/app/deploy/s";
  read_file = λ path. if path == text "/d/config.env" then some (text "A=1") else none;
  home = none;
  hostname = none;
  join = λ a b. a ++ b'/' ∷ b;
  trim_space = λ s. s;
  to_lower = λ s. s;
  contains = λ s t. false;
  lines = λ s. s ∷ [];
  setenv = λ k v env. if can_set k v then some (insert k v env) else none;
  json_chassis = λ s. none;
  json_version = λ s. none;
  json_env = λ s. none;
  json_endpoints = λ s. none;
  json_dependencies = λ s. some (some (bare_dependency ∷ []));
  json_flags = λ s. none;
}

abbrev at_d : Deploy
at_d = record { dir = text "/d"; found = true; name = text "s" }

small-Trims : Trims small
small-Trims s h = refl

small-refused :
    (key value : List ℕ) (env : Texts)
    → can_set key value ≡ false
    → small.setenv key value env ≡ none
small-refused key value env h = rw h refl

small-set :
    (key value : List ℕ) (env next : Texts) (k : List ℕ)
    → small.setenv key value env ≡ some next
    → lookup k next ≡ (if key == k then some value else lookup k env)
small-set key value env next k h =
    let same : next ≡ insert key value env = ground arith in
    ap (lookup k) same ∙ lookup-insert key k value env

small-IsSetter : IsSetter small
small-IsSetter = record {
  refuses = small-refused;
  succeeds = λ key value env h. (insert key value env, rw h refl);
  sets = small-set;
}

parse_line-quoted_example : parse_line small (text "A=\"b\"") ≡ some (text "A", text "b")
unfolding chassis_go.Deploy.EnvFile.split_last
parse_line-quoted_example =
    parse_line-quoted small b'A' b'"' [] (text "b") small-Trims refl refl refl refl

lookup-load_env_example :
    lookup (text "A") (load_env small at_d [])
    ≡ settable (text "A") (
        or_else
          (lookup (text "A") (file_vars small at_d (text "secrets.env")))
          (lookup (text "A") (file_vars small at_d (text "config.env"))))
unfolding lookup
lookup-load_env_example = lookup-load_env small at_d [] (text "A") small-IsSetter refl

executed_hook : run_hook small at_d (text "up") ≡ executed (text "/d/hooks/up")
unfolding run_hook is_hook_name has_prefix
executed_hook = refl
