-- ===== src/Deploy/Directory.antt =====
-- Which directory is discovered.
use chassis_go.Prelude.{
  ℕ, ◌≡◌, refl, ap, ◌⊎◌, inl, inr, true, false, List, [], ◌∷◌, ◌++◌, All, Bool-cases,
}
use mathlib.Core.Path.{subst}
use chassis_go.Deploy.{Texts, Deploy, System, first_dir, candidates, discover}

module _ (sys : System) where
  -- A deploy directory that is the first of those tried that is one, or none of them is.
  abbrev pub IsFirst : List (List ℕ) → Deploy → Type 0
  IsFirst dirs d =
      ((before : List (List ℕ)) × (after : List (List ℕ)) × (dirs ≡ before ++ d.dir ∷ after)
        × All (λ dir. sys.is_dir dir ≡ false) before
        × (sys.is_dir d.dir ≡ true)
        × (d.found ≡ true))
      ⊎ (All (λ dir. sys.is_dir dir ≡ false) dirs × (d.found ≡ false))

  skip-IsFirst :
      (dir : List ℕ) (dirs : List (List ℕ)) (d : Deploy)
      → sys.is_dir dir ≡ false
      → IsFirst dirs d
      → IsFirst (dir ∷ dirs) d
  skip-IsFirst dir dirs d h (inl (before, after, e, others, is, found)) =
      inl (dir ∷ before, after, ap (λ ds. dir ∷ ds) e, (h, others), is, found)
  skip-IsFirst dir dirs d h (inr (others, lost)) = inr ((h, others), lost)

  first_dir_skip :
      (dir : List ℕ) (dirs : List (List ℕ)) (name : List ℕ)
      → sys.is_dir dir ≡ false
      → first_dir sys dirs name ≡ first_dir sys (dir ∷ dirs) name
  unfolding first_dir
  first_dir_skip dir dirs name h = rw h refl

  first_dir-IsFirst :
      (dirs : List (List ℕ)) (name : List ℕ) → IsFirst dirs (first_dir sys dirs name)
  unfolding first_dir
  first_dir-IsFirst [] name = inr (tt, refl)
  first_dir-IsFirst (dir ∷ dirs) name = elim (Bool-cases (sys.is_dir dir)) [
    | inl is ↦ rw is (inl ([], dirs, refl, tt, is, refl))
    | inr not_dir ↦
        let later =
          skip-IsFirst dir dirs (first_dir sys dirs name) not_dir (first_dir-IsFirst dirs name) in
        subst (IsFirst (dir ∷ dirs)) (first_dir_skip dir dirs name not_dir) later
  ]

  -- `Discover` finds the first of its candidates that is a directory; it finds none only if none of
  -- them is one.
  pub discover-IsFirst :
      (name : List ℕ) (env : Texts) → IsFirst (candidates sys name env) (discover sys name env)
  unfolding discover
  discover-IsFirst name env = first_dir-IsFirst (candidates sys name env) name
