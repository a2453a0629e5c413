-- ===== src/Errors/Problem/Reserved.antt =====
-- Extensions cannot take the place of the fields of a problem.
use chassis_go.Prelude.{
  ℕ, ◌≡◌, refl, true, text_comparable, same_text_iff, List, [], ◌∷◌, lookup, lookup-insert, arith,
}
use chassis_go.Errors.Problem.{
  ProblemDetail, Member, other_member, is_reserved, base_members, add_extensions, members,
}

module _ {V : Type 0} where
  reserved_kept :
      (k : List ℕ) (extensions : List (List ℕ × V)) (m : List (List ℕ × Member V))
      → is_reserved k ≡ true
      → lookup k (add_extensions extensions m) ≡ lookup k m
  unfolding add_extensions
  reserved_kept k [] m h = refl
  reserved_kept k ((j, v) ∷ extensions) m h = ground (
    arith,
    reserved_kept k extensions m h,
    lookup-insert j k (other_member v) (add_extensions extensions m),
    same_text_iff j k,
  )

  -- Whatever extensions a problem carries, the reserved fields of its JSON object are its own.
  pub lookup-members :
      (pd : ProblemDetail V) (k : List ℕ)
      → is_reserved k ≡ true
      → lookup k (members pd) ≡ lookup k (members (record pd { extensions = [] }))
  unfolding members add_extensions base_members
  lookup-members pd k h = reserved_kept k pd.extensions (base_members pd) h
