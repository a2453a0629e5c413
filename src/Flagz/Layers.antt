-- ===== src/Flagz/Layers.antt =====
-- Which source of a layered one decides.
use chassis_go.Prelude.{ℕ, ◌≡◌, refl, none, some, List, [], ◌∷◌, ◌++◌, All}
use chassis_go.Flagz.{Source, multi, variant}

multi_unset :
    (sources : List Source) (name : List ℕ)
    → All (λ s. s name ≡ none) sources
    → multi sources name ≡ none
unfolding multi
multi_unset [] name h = refl
multi_unset (s ∷ sources) name h = rw (multi_unset sources name h.1) h.0

multi_set :
    (before after : List Source) (s : Source) (name value : List ℕ)
    → s name ≡ some value
    → All (λ t. t name ≡ none) after
    → multi (before ++ s ∷ after) name ≡ some value
unfolding multi
multi_set [] after s name value h unset = rw (multi_unset after name unset) h
multi_set (t ∷ before) after s name value h unset =
    rw (multi_set before after s name value h unset) refl

-- Among layered sources the last one that has the flag gives its variant, whatever the sources
-- before it say; if none has it, the variant is the default.
pub variant-multi :
    (before after : List Source) (s : Source) (name value default_val : List ℕ)
    → s name ≡ some value
    → All (λ t. t name ≡ none) after
    → (variant (multi (before ++ s ∷ after)) name default_val ≡ value)
      × (variant (multi after) name default_val ≡ default_val)
unfolding variant
variant-multi before after s name value default_val h unset = (
  rw (multi_set before after s name value h unset, variant) refl,
  rw (multi_unset after name unset, variant) refl,
)
