-- ===== src/Call/Token.antt =====
-- call/token.go: `CachedToken`. The mutex makes `Token` one atomic step; the fetch function's
-- answer enters as an argument. Times and the leeway are in nanoseconds.
pub mod Caching
pub mod Tests
use chassis_go.Prelude.{
  ℕ, ◌+◌, Bool, true, false, ◌&&◌, not, String, ltb, if◌then◌else◌, ◌==◌, string_comparable, Option,
  none, some,
}
use chassis_go.Call.Errors.{Error}

pub record CachedToken : Type 0 where
  pub leeway : ℕ
  pub token : String
  pub expires : ℕ

-- What `fetch` returns.
pub data Fetched : Type 0 where
  token_until : String → ℕ → Fetched
  fetch_error : Error → Fetched

pub data Served : Type 0 where
  cached : String → Served
  fetched : String → Served
  refused : Error → Served

-- `NewCachedToken` with a leeway given.
new_cached_token : ℕ → CachedToken
new_cached_token leeway = record { leeway = leeway; token = ""; expires = 0 }

-- The test for a token that is still good.
is_fresh : ℕ → CachedToken → Bool
is_fresh now ct = not (ct.token == "") && ltb (now + ct.leeway) ct.expires

-- The part of `Token` behind the test.
refresh : Fetched → CachedToken → CachedToken × Served
refresh (fetch_error err) ct = (ct, refused err)
refresh (token_until token expires) ct =
    (record ct { token = token; expires = expires }, fetched token)

-- `Token`; `answer` is what the fetch function returns, if it is called.
pub get_token : ℕ → Fetched → CachedToken → CachedToken × Served
unfolding is_fresh refresh
get_token now answer ct = if is_fresh now ct then (ct, cached ct.token) else refresh answer ct
