-- ===== src/Call/Token/Tests.antt =====
-- A token that is fetched once and served from the cache.
use chassis_go.Prelude.{ℕ, List, [], ◌∷◌}
use chassis_go.Call.Errors.{external}
use chassis_go.Call.Token.{CachedToken, Fetched, token_until, fetch_error}

abbrev empty : CachedToken
empty = record { leeway = 300; token = ""; expires = 0 }

abbrev calls : List (ℕ × Fetched)
calls = (2000, fetch_error (external 1)) ∷ (4000, token_until "u" 9000) ∷ []
