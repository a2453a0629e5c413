-- ===== src/Flagz/Tests.antt =====
-- A flag that is on, in the second of two layers.
use chassis_go.Prelude.{
  ℤ, pos, negsuc, ℕ, ◌≤◌, ◌<◌, ◌≡◌, refl, true, false, Bool, text, Option, none, some, List, [],
  ◌∷◌, ◌++◌, ◌&&◌, ◌%◌, lookup, text_comparable,
}
use chassis_go.Flagz.{Source, from_map, multi, variant, enabled, enabled_for, consistent_bucket}
use chassis_go.Flagz.Rollout.{at_percent, fnv1a, below, enabled_for-percent}

abbrev flag : List ℕ
flag = text "new-thing"

abbrev flag_on : Source
flag_on = from_map ((flag, text "true") ∷ [])

abbrev unset : Source
unset = from_map []

on_for_all : enabled_for flag_on flag (at_percent (text "ann") (pos 100)) ≡ true
unfolding enabled_for from_map lookup chassis_go.Flagz.is_true chassis_go.Flagz.passes_gate
    chassis_go.Prelude.same_text
on_for_all = refl

flag_set : flag_on flag ≡ some (text "true")
unfolding from_map lookup chassis_go.Prelude.same_text
flag_set = refl

flag-unset : unset flag ≡ none
unfolding from_map lookup
flag-unset = refl

enabled_for-percent_example :
    enabled_for flag_on flag (at_percent (text "ann") (pos 50))
    ≡ (enabled flag_on flag && below (fnv1a (flag ++ 0 ∷ text "ann") 2166136261 % 100) (pos 50))
enabled_for-percent_example = enabled_for-percent flag_on flag (text "ann") (pos 50)
