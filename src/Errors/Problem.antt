-- ===== src/Errors/Problem.antt =====
-- errors/problem.go: the problem details of an error, and the members of its JSON object. Texts are
-- lists of bytes; the text of a status without a title of its own is the standard library's.
pub mod Reserved
pub mod Tests
use chassis_go.Prelude.{
  ℕ, Bool, true, false, ◌==◌, ◌||◌, nat_comparable, text_comparable, text, Option, none, some, List,
  [], ◌∷◌, ◌++◌, lookup, insert, if◌then◌else◌,
}
use chassis_go.Errors.{ServiceError, internal_error}

abbrev Text : Type 0
Text = List ℕ

-- `typeURIs`, less the base.
abbrev type_uris : List (ℕ × Text)
type_uris =
    (400, text "validation")
    ∷ (404, text "not-found")
    ∷ (401, text "unauthorized")
    ∷ (403, text "forbidden")
    ∷ (504, text "timeout")
    ∷ (413, text "payload-too-large")
    ∷ (429, text "rate-limit")
    ∷ (503, text "dependency")
    ∷ (500, text "internal")
    ∷ []

-- `titleMap`.
abbrev title_map : List (ℕ × Text)
title_map =
    (400, text "Validation Error")
    ∷ (404, text "Not Found")
    ∷ (401, text "Unauthorized")
    ∷ (403, text "Forbidden")
    ∷ (504, text "Timeout")
    ∷ (413, text "Payload Too Large")
    ∷ (429, text "Rate Limit Exceeded")
    ∷ (503, text "Dependency Error")
    ∷ (500, text "Internal Error")
    ∷ []

-- `ProblemDetail`; a nil map of extensions is an empty one.
pub record ProblemDetail (V : Type 0) : Type 0 where
  pub type_uri : Text
  pub title : Text
  pub status : ℕ
  pub detail : Text
  pub instance_path : Text
  pub extensions : List (Text × V)

or_unknown : Option Text → Text
or_unknown none = text "unknown"
or_unknown (some name) = name

or_text : Text → Option Text → Text
or_text default none = default
or_text default (some t) = t

-- `e.typeURI` if it is not empty.
own_uri : Option Text → Text → Text
own_uri none uri = uri
own_uri (some own) uri = own

-- `ServiceError.ProblemDetail`, on the text of a status, the path of the request, and the details.
pub problem_detail :
    {E V : Type 0} → (ℕ → Text) → Text → List (Text × V) → ServiceError Text E → ProblemDetail V
unfolding own_uri or_unknown or_text
problem_detail status_text path details err = record {
  type_uri =
      own_uri err.type_uri (
        text "https://chassis.ai8future.com/errors/"
        ++ or_unknown (lookup err.http_code type_uris));
  title = or_text (status_text err.http_code) (lookup err.http_code title_map);
  status = err.http_code;
  detail = err.message;
  instance_path = path;
  extensions = details;
}

-- `FromError` of errors.go: none is nil, and `errors.As` is a parameter.
pub from_error :
    {E : Type 0} → (E → Option (ServiceError Text E)) → Option E → Option (ServiceError Text E)
from_error as_service none = none
from_error as_service (some err) = elim (as_service err) [
  | some service ↦ some service
  | none ↦ some (record (internal_error (text "an internal error occurred")) { cause = some err })
]

-- The extensions that `WriteProblem` sends, with the request's id if it has one.
pub write_extensions : {V : Type 0} → Text → V → List (Text × V) → List (Text × V)
write_extensions request_id value extensions =
    if request_id == [] then extensions else insert (text "request_id") value extensions

pub data Member (V : Type 0) : Type 0 where
  text_member : Text → Member V
  int_member : ℕ → Member V
  other_member : V → Member V

-- The fields of RFC 9457.
pub is_reserved : Text → Bool
is_reserved k =
    text "type" == k
    || text "title" == k
    || text "status" == k
    || text "detail" == k
    || text "instance" == k

module _ {V : Type 0} where
  pub base_members : ProblemDetail V → List (Text × Member V)
  base_members pd =
      let four = insert (text "type") (text_member pd.type_uri) (
        insert (text "title") (text_member pd.title) (
          insert (text "status") (int_member pd.status)
            (insert (text "detail") (text_member pd.detail) []))) in
      if pd.instance_path == []
      then four
      else insert (text "instance") (text_member pd.instance_path) four

  -- The loop over the extensions.
  add_extensions : List (Text × V) → List (Text × Member V) → List (Text × Member V)
  add_extensions [] m = m
  add_extensions ((k, v) ∷ extensions) m =
      let rest = add_extensions extensions m in
      if is_reserved k then rest else insert k (other_member v) rest

  -- `MarshalJSON`: the members of the object.
  pub members : ProblemDetail V → List (Text × Member V)
  unfolding is_reserved add_extensions
  members pd = add_extensions pd.extensions (base_members pd)
