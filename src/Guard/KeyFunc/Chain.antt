-- ===== src/Guard/KeyFunc/Chain.antt =====
-- The forwarding header cannot be used to choose one's own key.
use chassis_go.Prelude.{
  ℕ, ◌≡◌, refl, Bool, true, false, ◌==◌, nat_comparable, text_comparable, same_text_iff, Option,
  none, some, List, [], ◌∷◌, ◌++◌, if◌then◌else◌, arith, Option-cases, Bool-cases, inl, inr, ◌⊎◌,
}
use chassis_go.Guard.KeyFunc.{
  Request, Net, split_commas, trim_space, contained, remote_host, is_client, walk, or_host,
  forwarded, parts_of, is_trusted_peer, x_forwarded_for,
}

split_commas-append :
    (s t : List ℕ)
    → ((split_commas (s ++ b',' ∷ t)).0 ≡ (split_commas s).0)
      × ((split_commas (s ++ b',' ∷ t)).1 ≡ (split_commas s).1 ++ parts_of t)
unfolding split_commas parts_of
split_commas-append [] t = (refl, refl)
split_commas-append (c ∷ s) t = ground (arith, split_commas-append s t)

module _ {A : Type 0} (net : Net A) (nets : List (A → Bool)) where
  walk-append :
      (before parts : List (List ℕ)) (client : List ℕ)
      → walk net nets parts ≡ some client
      → walk net nets (before ++ parts) ≡ some client
  unfolding walk
  walk-append [] parts client h = h
  walk-append (part ∷ before) parts client h = rw (walk-append before parts client h) refl

  -- An address that the trusted networks do not contain.
  abbrev pub IsClient : List ℕ → Type 0
  IsClient s = (ip : A) × (net.parse_ip s ≡ some ip) × (contained nets ip ≡ false)

  is_client-IsClient :
      (s : List ℕ) (parsed : Option A)
      → net.parse_ip s ≡ parsed
      → is_client net nets parsed ≡ true
      → IsClient s
  unfolding is_client
  is_client-IsClient s none e h = cc
  is_client-IsClient s (some ip) e h = (ip, e, ground arith)

  walk-IsClient :
      (parts : List (List ℕ)) (client : List ℕ)
      → walk net nets parts ≡ some client
      → IsClient client
  unfolding walk
  walk-IsClient [] client h = ground arith
  walk-IsClient (part ∷ parts) client h = elim (Option-cases (walk net nets parts)) [
    | inr (found, e) ↦ walk-IsClient parts client (ground arith)
    | inl last ↦ elim (Bool-cases (is_client net nets (net.parse_ip (trim_space part)))) [
      | inl ours ↦
          let same : trim_space part ≡ client = ground arith in
          is_client-IsClient client (net.parse_ip client) refl (rw same at ours)
      | inr other ↦ absurd (ground arith)
    ]
  ]

  header_kept : (spoofed chain : List ℕ) → ((spoofed ++ b',' ∷ chain) == []) ≡ false
  unfolding chassis_go.Prelude.same_text
  header_kept [] chain = refl
  header_kept (c ∷ spoofed) chain = refl

  walked :
      (spoofed chain client : List ℕ)
      → walk net nets (parts_of chain) ≡ some client
      → walk net nets (parts_of (spoofed ++ b',' ∷ chain)) ≡ some client
  unfolding parts_of
  walked spoofed chain client h =
      let (head, tail) = split_commas-append spoofed chain in
      rw (head, tail) (walk-append (parts_of spoofed) (parts_of chain) client h)

  or_host-IsClient :
      (host : List ℕ) (found : Option (List ℕ))
      → ((client : List ℕ) → found ≡ some client → IsClient client)
      → (or_host net host found ≡ host) ⊎ IsClient (or_host net host found)
  unfolding or_host
  or_host-IsClient host none h = inl refl
  or_host-IsClient host (some client) h = inr (h client refl)

  forwarded-IsClient :
      (host header : List ℕ)
      → (forwarded net nets host header ≡ host) ⊎ IsClient (forwarded net nets host header)
  unfolding forwarded
  forwarded-IsClient host header = elim (Bool-cases (header == [])) [
    | inl empty ↦ inl (rw empty refl)
    | inr full ↦
        rw full (
          or_host-IsClient host (walk net nets (parts_of header)) (walk-IsClient (parts_of header)))
  ]

  -- Behind a trusted peer, the key depends only on what the trusted hops appended to the header: if
  -- that names a client, any text before its comma, which the client may have sent, is ignored.
  pub x_forwarded_for-spoofed :
      (r : Request) (spoofed chain client : List ℕ)
      → is_trusted_peer net nets (net.parse_ip (remote_host net r)) ≡ true
      → walk net nets (parts_of chain) ≡ some client
      → x_forwarded_for net nets (record r { x_forwarded_for = spoofed ++ b',' ∷ chain }) ≡ client
  unfolding x_forwarded_for remote_host forwarded or_host
  x_forwarded_for-spoofed r spoofed chain client h w =
      rw (h, header_kept spoofed chain, walked spoofed chain client w) refl

  -- The key is the peer's address, or, only behind a trusted peer, an address outside the trusted
  -- networks.
  pub x_forwarded_for-IsClient :
      (r : Request)
      → (x_forwarded_for net nets r ≡ remote_host net r)
        ⊎ ((is_trusted_peer net nets (net.parse_ip (remote_host net r)) ≡ true)
            × IsClient (x_forwarded_for net nets r))
  unfolding x_forwarded_for
  x_forwarded_for-IsClient r =
      elim (Bool-cases (is_trusted_peer net nets (net.parse_ip (remote_host net r)))) [
        | inr stranger ↦ inl (rw stranger refl)
        | inl trusted ↦ elim (forwarded-IsClient (remote_host net r) r.x_forwarded_for) [
          | inl same ↦ inl (rw trusted same)
          | inr client ↦ inr (trusted, rw (trusted, x_forwarded_for) client)
        ]
      ]
