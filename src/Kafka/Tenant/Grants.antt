-- ===== src/Kafka/Tenant/Grants.antt =====
-- Which tenants' events are delivered, after any grants and revocations.
use chassis_go.Prelude.{
  ℕ, Bool, true, false, ◌||◌, ◌≡◌, refl, ◌==◌, text_comparable, text, List, [], ◌∷◌, lookup,
  lookup-insert, lookup-erase, if◌then◌else◌, arith,
}
use chassis_go.Kafka.Tenant.{
  TenantFilter, new_tenant_filter, should_deliver, is_granted, grant, revoke, Change, grants_to,
  revokes_from, change,
}

-- Whether the last change that names a tenant grants it; `before` if no change does.
abbrev pub last_granted : List ℕ → Bool → List Change → Bool
last_granted tenant before [] = before
last_granted tenant before (grants_to t ∷ changes) =
    last_granted tenant (if t == tenant then true else before) changes
last_granted tenant before (revokes_from t ∷ changes) =
    last_granted tenant (if t == tenant then false else before) changes

granted : TenantFilter → List ℕ → Bool
unfolding is_granted
granted f tenant = is_granted (lookup tenant f.grants)

granted-grant :
    (f : TenantFilter) (t tenant : List ℕ)
    → granted (grant t f) tenant ≡ (if t == tenant then true else granted f tenant)
unfolding granted grant
granted-grant f t tenant = ground (arith, lookup-insert t tenant true f.grants)

granted-revoke :
    (f : TenantFilter) (t tenant : List ℕ)
    → granted (revoke t f) tenant ≡ (if t == tenant then false else granted f tenant)
unfolding granted revoke
granted-revoke f t tenant = ground (arith, lookup-erase t tenant f.grants)

granted-change :
    (f : TenantFilter) (tenant : List ℕ) (changes : List Change)
    → granted (change f changes) tenant ≡ last_granted tenant (granted f tenant) changes
unfolding change
granted-change f tenant [] = refl
granted-change f tenant (grants_to t ∷ changes) =
    rw (granted-change (grant t f) tenant changes, granted-grant f t tenant)
granted-change f tenant (revokes_from t ∷ changes) =
    rw (granted-change (revoke t f) tenant changes, granted-revoke f t tenant)

own_tenant-change :
    (f : TenantFilter) (changes : List Change) → (change f changes).own_tenant ≡ f.own_tenant
unfolding change grant revoke
own_tenant-change f [] = refl
own_tenant-change f (grants_to t ∷ changes) = own_tenant-change (grant t f) changes
own_tenant-change f (revokes_from t ∷ changes) = own_tenant-change (revoke t f) changes

-- After any grants and revocations an event is delivered exactly if it has no tenant, is the own
-- tenant's or is shared, or if the last change that names its tenant grants it.
pub should_deliver-change :
    (own tenant : List ℕ) (changes : List Change)
    → should_deliver tenant (change (new_tenant_filter own) changes) ≡ (
        tenant == []
        || tenant == own
        || tenant == text "shared"
        || last_granted tenant false changes)
unfolding should_deliver new_tenant_filter granted lookup
should_deliver-change own tenant changes = ground (
  arith,
  granted-change (new_tenant_filter own) tenant changes,
  own_tenant-change (new_tenant_filter own) changes,
)
