-- ===== src/Kafka/Tenant.antt =====
-- kafkakit/tenant.go: the tenant filter. Each method is one atomic step under its lock.
pub mod Grants
use chassis_go.Prelude.{
  ℕ, Bool, true, false, ◌||◌, ◌==◌, text_comparable, text, Option, none, some, List, [], ◌∷◌,
  lookup, insert, erase, if◌then◌else◌,
}

pub record TenantFilter : Type 0 where
  pub own_tenant : List ℕ
  pub grants : List (List ℕ × Bool)

-- `NewTenantFilter`.
pub new_tenant_filter : List ℕ → TenantFilter
new_tenant_filter own = record { own_tenant = own; grants = [] }

-- `f.grants[tenant]`, which is false for a key that is not there.
is_granted : Option Bool → Bool
is_granted none = false
is_granted (some b) = b

-- `ShouldDeliver`.
unfoldable pub should_deliver : List ℕ → TenantFilter → Bool
unfolding is_granted
should_deliver tenant f =
    if tenant == []
    then true
    else if tenant == f.own_tenant
    then true
    else if tenant == text "shared"
    then true
    else is_granted (lookup tenant f.grants)

-- `Grant`.
pub grant : List ℕ → TenantFilter → TenantFilter
grant tenant f = record f { grants = insert tenant true f.grants }

-- `Revoke`.
pub revoke : List ℕ → TenantFilter → TenantFilter
revoke tenant f = record f { grants = erase tenant f.grants }

pub data Change : Type 0 where
  grants_to revokes_from : List ℕ → Change

pub change : TenantFilter → List Change → TenantFilter
change f [] = f
change f (grants_to tenant ∷ changes) = change (grant tenant f) changes
change f (revokes_from tenant ∷ changes) = change (revoke tenant f) changes
