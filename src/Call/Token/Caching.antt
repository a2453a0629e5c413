-- ===== src/Call/Token/Caching.antt =====
-- When `CachedToken` fetches.
use text.Mathlib.TextEquality.{eq_iff}
use chassis_go.Prelude.{ℕ, ◌+◌, ◌<◌, ◌≡◌, ◌≢◌, refl, String, List, [], ◌∷◌, arith, All}
use chassis_go.Call.Token.{
  CachedToken, Fetched, token_until, fetch_error, Served, cached, fetched, refused, get_token,
}

-- Calls of `Token` in order, each with its time and what a fetch would return.
pub serve : CachedToken → List (ℕ × Fetched) → CachedToken × List Served
serve ct [] = (ct, [])
serve ct ((now, answer) ∷ calls) =
    let (ct', out) = get_token now answer ct in
    let (ct'', outs) = serve ct' calls in (ct'', out ∷ outs)

abbrev pub all_cached : String → List (ℕ × Fetched) → List Served
all_cached token [] = []
all_cached token (_ ∷ calls) = cached token ∷ all_cached token calls

serve_fresh :
    (ct : CachedToken) (calls : List (ℕ × Fetched))
    → ct.token ≢ ""
    → All (λ c. c.0 + ct.leeway < ct.expires) calls
    → serve ct calls ≡ (ct, all_cached ct.token calls)
unfolding serve get_token
serve_fresh ct [] filled early = refl
serve_fresh ct ((now, answer) ∷ calls) filled early =
    ground (arith, eq_iff ct.token "", serve_fresh ct calls filled)

-- One fetch serves every call that comes while the token is more than the leeway from its expiry:
-- none of them fetches, and each gets that token.
pub serve_after_fetch :
    (ct : CachedToken) (now : ℕ) (token : String) (expires : ℕ) (calls : List (ℕ × Fetched))
    → (get_token now (token_until token expires) ct).1 ≡ fetched token
    → token ≢ ""
    → All (λ c. c.0 + ct.leeway < expires) calls
    → (serve ct ((now, token_until token expires) ∷ calls)).1
      ≡ fetched token ∷ all_cached token calls
unfolding serve get_token
serve_after_fetch ct now token expires calls e filled early =
    ground (arith, serve_fresh (record ct { token = token; expires = expires }) calls filled early)

-- What an answer of `Token` says of the cache before and after.
abbrev pub Justified : ℕ → Fetched → CachedToken → CachedToken × Served → Type 0
Justified now answer ct (ct', cached token) =
    (ct' ≡ ct) × (token ≡ ct.token) × (token ≢ "") × (now + ct.leeway < ct.expires)
Justified now answer ct (ct', fetched token) =
    (answer ≡ token_until token ct'.expires) × (ct'.token ≡ token) × (ct'.leeway ≡ ct.leeway)
Justified now answer ct (ct', refused err) = (ct' ≡ ct) × (answer ≡ fetch_error err)

-- A token that comes from the cache is not the empty one and is more than the leeway from its
-- expiry, and the cache stays as it is; a fetch error goes to the caller and changes nothing; a
-- fetched token is kept with its expiry.
pub get_token-Justified :
    (now : ℕ) (answer : Fetched) (ct : CachedToken)
    → Justified now answer ct (get_token now answer ct)
unfolding get_token
get_token-Justified now answer ct = ground (arith, eq_iff ct.token "")
