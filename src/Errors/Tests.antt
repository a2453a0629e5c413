-- ===== src/Errors/Tests.antt =====
-- An error with one detail, which is decorated twice.
use chassis_go.Prelude.{ℕ, ◌≡◌, nat_comparable, some, List, [], ◌∷◌, arith}
use chassis_go.Errors.{ServiceError, Decoration, detail, validation_error, decorate, details_in}
use chassis_go.Errors.Sharing.{IsStored, details_in-decorate}

abbrev base : ServiceError ℕ ℕ
base = record (validation_error 5) { details = some 0 }

abbrev one_map : List (List (ℕ × ℕ))
one_map = ((1, 10) ∷ []) ∷ []

base-IsStored : IsStored base one_map
base-IsStored = λ i e. ground arith

abbrev sets_one : Decoration ℕ ℕ ℕ ℕ
sets_one = detail 1 11

details_in-decorate_example :
    details_in base (decorate sets_one base one_map).1 ≡ details_in base one_map
details_in-decorate_example = details_in-decorate sets_one base base one_map base-IsStored

abbrev given : List (ℕ × ℕ)
given = (2, 20) ∷ []

abbrev one : ℕ
one = 1
