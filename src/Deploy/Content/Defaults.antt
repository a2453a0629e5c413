-- ===== src/Deploy/Content/Defaults.antt =====
-- No dependency is left without its defaults.
use chassis_go.Prelude.{
  ℕ, ◌≡◌, refl, Bool, true, false, is_empty, text, Option, none, some, List, [], ◌∷◌, All, arith,
}
use chassis_go.Deploy.{Deploy, System, Dependency, deploy_file}
use chassis_go.Deploy.Content.{
  or_required, default_dependencies, dependencies_of, dependencies_in, dependencies,
}

abbrev pub is_some : {A : Type 0} → Option A → Bool
is_some none = false
is_some (some _) = true

abbrev pub IsComplete : Dependency → Type 0
IsComplete d = (is_some d.required ≡ true) × (is_empty d.protocol ≡ false)

required_given : (o : Option Bool) → is_some (or_required o) ≡ true
unfolding or_required
required_given none = refl
required_given (some b) = refl

default-IsComplete : (ds : List Dependency) → All IsComplete (default_dependencies ds)
unfolding default_dependencies
default-IsComplete [] = tt
default-IsComplete (d ∷ ds) = ((required_given d.required, ground arith), default-IsComplete ds)

module _ (sys : System) where
  of-IsComplete : (o : Option (Option (List Dependency))) → All IsComplete (dependencies_of sys o)
  unfolding dependencies_of
  of-IsComplete none = tt
  of-IsComplete (some none) = tt
  of-IsComplete (some (some ds)) = default-IsComplete ds

  in-IsComplete : (content : Option (List ℕ)) → All IsComplete (dependencies_in sys content)
  unfolding dependencies_in
  in-IsComplete none = tt
  in-IsComplete (some content) = of-IsComplete (sys.json_dependencies content)

  -- Every dependency that `Dependencies` returns says whether it is required and has a protocol.
  pub dependencies-IsComplete : (d : Deploy) → All IsComplete (dependencies sys d)
  unfolding dependencies
  dependencies-IsComplete d = in-IsComplete (deploy_file sys d (text "deploy.json"))
