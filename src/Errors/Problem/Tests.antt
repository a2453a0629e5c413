-- ===== src/Errors/Problem/Tests.antt =====
-- A problem whose extensions try to set its status.
use chassis_go.Prelude.{ℕ, ◌≡◌, refl, true, List, [], ◌∷◌, text, text_comparable, lookup}
use chassis_go.Errors.Problem.{ProblemDetail, is_reserved}

abbrev forged : ProblemDetail ℕ
forged = record {
  type_uri = text "t";
  title = text "Not Found";
  status = 404;
  detail = text "no";
  instance_path = [];
  extensions = (text "status", 200) ∷ [];
}

status-is_reserved : is_reserved (text "status") ≡ true
unfolding is_reserved chassis_go.Prelude.same_text
status-is_reserved = refl
