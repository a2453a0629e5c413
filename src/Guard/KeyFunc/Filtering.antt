-- ===== src/Guard/KeyFunc/Filtering.antt =====
-- Which requests the IP filter serves.
use chassis_go.Prelude.{
  ℕ, ◌≡◌, refl, Bool, true, false, Option, none, some, List, [], ◌∷◌, ◌++◌, arith, All, Bool-cases,
  ◌⊎◌, inl, inr, ◌↔◌, ap,
}
use chassis_go.Guard.KeyFunc.{Request, Net, contained, is_allowed, filter_ip, ip_filter}

module _ {A : Type 0} where
  -- The address is in one of the networks.
  abbrev pub Within : List (A → Bool) → A → Type 0
  Within nets ip =
      (before after : List (A → Bool)) × (n : A → Bool) × (nets ≡ before ++ n ∷ after)
      × (n ip ≡ true)

  Within-contained : (nets : List (A → Bool)) (ip : A) → contained nets ip ≡ true → Within nets ip
  unfolding contained
  Within-contained [] ip h = cc
  Within-contained (n ∷ nets) ip h = elim (Bool-cases (n ip)) [
    | inl here ↦ ([], nets, n, refl, here)
    | inr other ↦
        let (before, after, m, e, g) = Within-contained nets ip (ground arith) in
        (n ∷ before, after, m, ap (◌∷◌ n) e, g)
  ]

  contained_of :
      (before after : List (A → Bool)) (n : A → Bool) (ip : A)
      → n ip ≡ true
      → contained (before ++ n ∷ after) ip ≡ true
  unfolding contained
  contained_of [] after n ip h = ground arith
  contained_of (m ∷ before) after n ip h = ground (arith, contained_of before after n ip h)

  outside_of :
      (nets : List (A → Bool)) (ip : A) → contained nets ip ≡ false → All (λ n. n ip ≡ false) nets
  unfolding contained
  outside_of [] ip h = tt
  outside_of (n ∷ nets) ip h = (ground arith, outside_of nets ip (ground arith))

  not_contained :
      (nets : List (A → Bool)) (ip : A) → All (λ n. n ip ≡ false) nets → contained nets ip ≡ false
  unfolding contained
  not_contained [] ip h = refl
  not_contained (n ∷ nets) ip h = ground (arith, h.0, not_contained nets ip h.1)

  -- What the filter serves: an address that parses, that no denied network contains, and that an
  -- allowed network contains if there are any.
  abbrev pub Served : Option A → List (A → Bool) → List (A → Bool) → Type 0
  Served parsed allow_nets deny_nets =
      (ip : A) × (parsed ≡ some ip)
      × All (λ n. n ip ≡ false) deny_nets
      × ((allow_nets ≡ []) ⊎ Within allow_nets ip)

  is_allowed-Within :
      (allow_nets : List (A → Bool)) (ip : A)
      → is_allowed allow_nets ip ≡ true
      → (allow_nets ≡ []) ⊎ Within allow_nets ip
  unfolding is_allowed
  is_allowed-Within [] ip h = inl refl
  is_allowed-Within (n ∷ nets) ip h = inr (Within-contained (n ∷ nets) ip h)

  Within-is_allowed :
      (allow_nets : List (A → Bool)) (ip : A)
      → (allow_nets ≡ []) ⊎ Within allow_nets ip
      → is_allowed allow_nets ip ≡ true
  unfolding is_allowed
  Within-is_allowed [] ip h = refl
  Within-is_allowed (n ∷ nets) ip (inl e) = cc
  Within-is_allowed (n ∷ nets) ip (inr (before, after, m, e, h)) =
      rw e (contained_of before after m ip h)

  serves :
      (allow_nets deny_nets : List (A → Bool)) (parsed : Option A)
      → filter_ip allow_nets deny_nets parsed ≡ true
      → Served parsed allow_nets deny_nets
  unfolding filter_ip
  serves allow_nets deny_nets none h = cc
  serves allow_nets deny_nets (some ip) h = (
    ip,
    refl,
    outside_of deny_nets ip (ground arith),
    is_allowed-Within allow_nets ip (ground arith),
  )

  served :
      (allow_nets deny_nets : List (A → Bool)) (parsed : Option A)
      → Served parsed allow_nets deny_nets
      → filter_ip allow_nets deny_nets parsed ≡ true
  unfolding filter_ip
  served allow_nets deny_nets parsed (ip, e, out, within) =
      rw (e, filter_ip, not_contained deny_nets ip out) (Within-is_allowed allow_nets ip within)

  module _ (net : Net A) (key_func : Request → List ℕ) (r : Request) where
    -- The filter serves a request exactly if its key parses as an address that is in none of the
    -- denied networks and, if there are allowed networks, in one of them.
    pub ip_filter_iff :
        (allow_nets deny_nets : List (A → Bool))
        → (ip_filter net key_func allow_nets deny_nets r ≡ true)
          ↔ Served (net.parse_ip (key_func r)) allow_nets deny_nets
    unfolding ip_filter
    ip_filter_iff allow_nets deny_nets = (
      serves allow_nets deny_nets (net.parse_ip (key_func r)),
      served allow_nets deny_nets (net.parse_ip (key_func r)),
    )
