-- ===== src/Errors.antt =====
-- errors/errors.go: the service error and its decorators. The details of an error are a map that
-- errors can share, so the maps stand in a store and an error holds the address of its own.
pub mod Sharing
pub mod Problem
pub mod Tests
use chassis_go.Prelude.{
  ℕ, zero, suc, Comparable, Option, none, some, List, [], ◌∷◌, ◌++◌, insert, length,
}

-- The codes of package codes that the constructors use.
pub data Code : Type 0 where
  invalid_argument not_found unauthenticated permission_denied deadline_exceeded : Code
  resource_exhausted unavailable internal : Code

-- `ServiceError`, on the types of the texts and the wrapped errors; `details` is none for a nil map.
pub record ServiceError (S E : Type 0) : Type 0 where
  pub message : S
  pub grpc_code : Code
  pub http_code : ℕ
  pub details : Option ℕ
  pub cause : Option E
  pub type_uri : Option S

module _ {S E : Type 0} where
  new_error : S → Code → ℕ → ServiceError S E
  new_error msg code http = record {
    message = msg;
    grpc_code = code;
    http_code = http;
    details = none;
    cause = none;
    type_uri = none;
  }

  pub validation_error : S → ServiceError S E
  unfolding new_error
  validation_error msg = new_error msg invalid_argument 400

  pub not_found_error : S → ServiceError S E
  unfolding new_error
  not_found_error msg = new_error msg not_found 404

  pub unauthorized_error : S → ServiceError S E
  unfolding new_error
  unauthorized_error msg = new_error msg unauthenticated 401

  pub forbidden_error : S → ServiceError S E
  unfolding new_error
  forbidden_error msg = new_error msg permission_denied 403

  pub timeout_error : S → ServiceError S E
  unfolding new_error
  timeout_error msg = new_error msg deadline_exceeded 504

  pub payload_too_large_error : S → ServiceError S E
  unfolding new_error
  payload_too_large_error msg = new_error msg invalid_argument 413

  pub rate_limit_error : S → ServiceError S E
  unfolding new_error
  rate_limit_error msg = new_error msg resource_exhausted 429

  pub dependency_error : S → ServiceError S E
  unfolding new_error
  dependency_error msg = new_error msg unavailable 503

  pub internal_error : S → ServiceError S E
  unfolding new_error
  internal_error msg = new_error msg internal 500

-- A call of one of the decorators, with its arguments.
pub data Decoration (K V S E : Type 0) : Type 0 where
  detail : K → V → Decoration K V S E
  details_all : List (K × V) → Decoration K V S E
  typed : S → Decoration K V S E
  wraps : E → Decoration K V S E

-- The map at an address.
pub read : {A : Type 0} → List (List A) → ℕ → List A
read [] i = []
read (m ∷ store) zero = m
read (m ∷ store) (suc i) = read store i

pub store_at : {A : Type 0} → List (List A) → ℕ → List A → List (List A)
store_at [] i new = []
store_at (m ∷ store) zero new = new ∷ store
store_at (m ∷ store) (suc i) new = m ∷ store_at store i new

module _ {K V : Type 0} ⦃e : Comparable K⦄ where
  -- `for k, v := range from { to[k] = v }`. The keys of a map are distinct, so its order is of no
  -- account.
  pub copy_into : List (K × V) → List (K × V) → List (K × V)
  copy_into [] to = to
  copy_into ((k, v) ∷ from) to = insert k v (copy_into from to)

  module _ {S E : Type 0} where
    -- `clone`, with the store after it.
    pub clone : ServiceError S E → List (List (K × V)) → ServiceError S E × List (List (K × V))
    unfolding copy_into
    clone err store = elim err.details [
      | none ↦ (err, store)
      | some i ↦
          (record err { details = some (length store) }, store ++ copy_into (read store i) [] ∷ [])
    ]

    -- `if out.Details == nil { out.Details = make(...) }`: the address, the error and the store.
    with_map : ServiceError S E → List (List (K × V)) → ℕ × ServiceError S E × List (List (K × V))
    with_map err store = elim err.details [
      | none ↦ (length store, record err { details = some (length store) }, store ++ [] ∷ [])
      | some i ↦ (i, err, store)
    ]

    -- `WithDetails`.
    pub with_details :
        List (K × V)
        → ServiceError S E
        → List (List (K × V))
        → ServiceError S E × List (List (K × V))
    unfolding clone with_map
    with_details details err store =
        let (out, cloned) = clone err store in
        let (i, made, opened) = with_map out cloned in
        (made, store_at opened i (copy_into details (read opened i)))

    -- `WithDetail`.
    pub with_detail :
        K → V → ServiceError S E → List (List (K × V)) → ServiceError S E × List (List (K × V))
    unfolding clone with_map
    with_detail key value err store =
        let (out, cloned) = clone err store in
        let (i, made, opened) = with_map out cloned in
        (made, store_at opened i (insert key value (read opened i)))

    -- `WithType`, `WithCause`.
    pub with_type :
        S → ServiceError S E → List (List (K × V)) → ServiceError S E × List (List (K × V))
    unfolding clone
    with_type uri err store =
        let (out, cloned) = clone err store in (record out { type_uri = some uri }, cloned)

    pub with_cause :
        E → ServiceError S E → List (List (K × V)) → ServiceError S E × List (List (K × V))
    unfolding clone
    with_cause wrapped err store =
        let (out, cloned) = clone err store in (record out { cause = some wrapped }, cloned)

    pub decorate :
        Decoration K V S E
        → ServiceError S E
        → List (List (K × V))
        → ServiceError S E × List (List (K × V))
    decorate (detail key value) err store = with_detail key value err store
    decorate (details_all details) err store = with_details details err store
    decorate (typed u) err store = with_type u err store
    decorate (wraps e) err store = with_cause e err store

    -- The details of an error, in a store.
    abbrev pub details_in : ServiceError S E → List (List (K × V)) → List (K × V)
    details_in err store = elim err.details [ none ↦ [] | some i ↦ read store i ]
