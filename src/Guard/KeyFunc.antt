-- ===== src/Guard/KeyFunc.antt =====
-- guard/keyfunc.go and guard/ipfilter.go: the client's address, and which addresses pass. Texts are
-- lists of code points. The standard library's `net.SplitHostPort`, `net.ParseIP` and the networks of
-- the CIDRs are parameters.
pub mod Chain
pub mod Filtering
pub mod Tests
use chassis_go.Prelude.{
  ℕ, ◌≤◌, Bool, true, false, ◌==◌, ◌&&◌, ◌||◌, leb, nat_comparable, text_comparable, Option, none,
  some, List, [], ◌∷◌, ◌++◌, if◌then◌else◌,
}

-- What the code reads of a request: the address with its port, and the forwarding header.
pub record Request : Type 0 where
  pub remote_addr : List ℕ
  pub x_forwarded_for : List ℕ

-- Package net: the host of an address, and the address that a text denotes.
pub record Net (A : Type 0) : Type 0 where
  pub split_host_port : List ℕ → Option (List ℕ)
  pub parse_ip : List ℕ → Option A

-- `unicode.IsSpace`.
unfoldable pub is_space : ℕ → Bool
is_space c =
    (leb 9 c && leb c 13)
    || c == 32
    || c == 133
    || c == 160
    || c == 5760
    || (leb 8192 c && leb c 8202)
    || c == 8232
    || c == 8233
    || c == 8239
    || c == 8287
    || c == 12288

trim_left : List ℕ → List ℕ
trim_left [] = []
trim_left (c ∷ s) = let rest = trim_left s in if is_space c then rest else c ∷ s

trim_right : List ℕ → List ℕ
trim_right [] = []
trim_right (c ∷ s) = let rest = trim_right s in if is_space c && (rest == []) then [] else c ∷ rest

-- `strings.TrimSpace`.
pub trim_space : List ℕ → List ℕ
unfolding trim_left trim_right
trim_space s = trim_right (trim_left s)

-- `strings.Split(s, ",")`, as the first part and the others.
split_commas : List ℕ → List ℕ × List (List ℕ)
split_commas [] = ([], [])
split_commas (c ∷ s) =
    let (part, parts) = split_commas s in
    if c == b',' then ([], part ∷ parts) else (c ∷ part, parts)

pub parts_of : List ℕ → List (List ℕ)
unfolding split_commas
parts_of s = let (part, parts) = split_commas s in part ∷ parts

-- `n.Contains(ip)` for some of the networks.
pub contained : {A : Type 0} → List (A → Bool) → A → Bool
contained [] ip = false
contained (n ∷ nets) ip = n ip || contained nets ip

module _ {A : Type 0} (net : Net A) where
  -- `remoteHost`.
  pub remote_host : Request → List ℕ
  remote_host r = elim (net.split_host_port r.remote_addr) [
    | none ↦ r.remote_addr
    | some host ↦ host
  ]

  -- `HeaderKey`, on the value of the header.
  pub header_key : List ℕ → Request → List ℕ
  header_key value r = if value == [] then remote_host r else value

  -- Whether a part of the chain is the client's address: one that parses and is not trusted.
  pub is_client : List (A → Bool) → Option A → Bool
  is_client nets none = false
  is_client nets (some ip) = if contained nets ip then false else true

  -- The walk over the parts from the right: the last that is the client's address.
  pub walk : List (A → Bool) → List (List ℕ) → Option (List ℕ)
  unfolding is_client
  walk nets [] = none
  walk nets (part ∷ parts) = elim (walk nets parts) [
    | some found ↦ some found
    | none ↦
        if is_client nets (net.parse_ip (trim_space part)) then some (trim_space part) else none
  ]

  pub or_host : List ℕ → Option (List ℕ) → List ℕ
  or_host host none = host
  or_host host (some client) = client

  pub is_trusted_peer : List (A → Bool) → Option A → Bool
  is_trusted_peer nets none = false
  is_trusted_peer nets (some ip) = contained nets ip

  -- The key behind a trusted peer, on the peer's address and the header.
  pub forwarded : List (A → Bool) → List ℕ → List ℕ → List ℕ
  forwarded nets host header =
      if header == [] then host else or_host host (walk nets (parts_of header))

  -- `XForwardedFor`, on the networks of the trusted CIDRs.
  pub x_forwarded_for : List (A → Bool) → Request → List ℕ
  unfolding is_trusted_peer
  x_forwarded_for nets r =
      let host = remote_host r in
      if is_trusted_peer nets (net.parse_ip host)
      then forwarded nets host r.x_forwarded_for
      else host

module _ {A : Type 0} where
  -- Without an allowed network, every address is allowed.
  pub is_allowed : List (A → Bool) → A → Bool
  is_allowed [] ip = true
  is_allowed (n ∷ nets) ip = contained (n ∷ nets) ip

  pub filter_ip : List (A → Bool) → List (A → Bool) → Option A → Bool
  filter_ip allow_nets deny_nets none = false
  filter_ip allow_nets deny_nets (some ip) =
      if contained deny_nets ip then false else is_allowed allow_nets ip

module _ {A : Type 0} (net : Net A) where
  -- `IPFilter`: whether the next handler serves the request, on the key function, the networks of
  -- `Allow` and those of `Deny`.
  pub ip_filter : (Request → List ℕ) → List (A → Bool) → List (A → Bool) → Request → Bool
  unfolding is_allowed filter_ip
  ip_filter key_func allow_nets deny_nets r =
      filter_ip allow_nets deny_nets (net.parse_ip (key_func r))
