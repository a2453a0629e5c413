-- ===== src/Guard/Cors.antt =====
-- guard/cors.go: which headers a cross-origin request gets. Texts are lists of code points; the
-- lower case of a text is a parameter of the standard library.
pub mod Origins
pub mod Tests
use chassis_go.Prelude.{
  ℕ, is_empty, Bool, true, false, ltb, ◌==◌, ◌||◌, ◌&&◌, nat_comparable, text_comparable, text,
  List, [], ◌∷◌, ◌++◌, Option, none, some, if◌then◌else◌,
}

-- `CORSConfig`; the age is in nanoseconds.
pub record CorsConfig : Type 0 where
  pub allow_origins : List (List ℕ)
  pub allow_methods : List (List ℕ)
  pub allow_headers : List (List ℕ)
  pub max_age : ℕ
  pub allow_credentials : Bool

pub among_texts : List ℕ → List (List ℕ) → Bool
among_texts s [] = false
among_texts s (t ∷ ts) = t == s || among_texts s ts

or_default : List (List ℕ) → List (List ℕ) → List (List ℕ)
or_default [] defaults = defaults
or_default (t ∷ ts) defaults = t ∷ ts

-- The checks of `CORS` and its defaults; none is a panic.
pub check_config : CorsConfig → Option CorsConfig
unfolding or_default
check_config cfg =
    if is_empty cfg.allow_origins
      || (cfg.allow_credentials && among_texts (text "*") cfg.allow_origins)
    then none
    else some (record cfg {
      allow_methods = or_default cfg.allow_methods (text "GET" ∷ text "POST" ∷ text "HEAD" ∷ []);
      allow_headers =
          or_default cfg.allow_headers (text "Origin" ∷ text "Content-Type" ∷ text "Accept" ∷ []);
    })

lower_all : (List ℕ → List ℕ) → List (List ℕ) → List (List ℕ)
lower_all lower [] = []
lower_all lower (o ∷ os) = lower o ∷ lower_all lower os

-- `strings.Join(s, ", ")`.
join_comma : List (List ℕ) → List ℕ
join_comma [] = []
join_comma (s ∷ []) = s
join_comma (s ∷ t ∷ ts) = s ++ text ", " ++ join_comma (t ∷ ts)

-- The headers that are set, and whether the next handler serves the request.
pub record CorsAnswer : Type 0 where
  pub set_headers : List (List ℕ × List ℕ)
  pub served : Bool

pub is_wildcard : CorsConfig → Bool
is_wildcard cfg = among_texts (text "*") cfg.allow_origins

origin_headers : CorsConfig → List ℕ → List (List ℕ × List ℕ)
unfolding is_wildcard
origin_headers cfg origin =
    if among_texts (text "*") cfg.allow_origins
    then (text "Access-Control-Allow-Origin", text "*") ∷ []
    else (text "Access-Control-Allow-Origin", origin) ∷ (text "Vary", text "Origin") ∷ []

credential_headers : CorsConfig → List (List ℕ × List ℕ)
credential_headers cfg =
    if cfg.allow_credentials
    then (text "Access-Control-Allow-Credentials", text "true") ∷ []
    else []

preflight_headers : (ℕ → List ℕ) → CorsConfig → List (List ℕ × List ℕ)
unfolding join_comma
preflight_headers seconds cfg =
    (text "Vary", text "Access-Control-Request-Method")
    ∷ (text "Vary", text "Access-Control-Request-Headers")
    ∷ (text "Access-Control-Allow-Methods", join_comma cfg.allow_methods)
    ∷ (text "Access-Control-Allow-Headers", join_comma cfg.allow_headers)
    ∷ (if ltb 0 cfg.max_age then (text "Access-Control-Max-Age", seconds cfg.max_age) ∷ [] else [])

-- Whether the origin is allowed.
pub allows_origin : (List ℕ → List ℕ) → CorsConfig → List ℕ → Bool
unfolding is_wildcard lower_all
allows_origin lower cfg origin =
    is_wildcard cfg || among_texts (lower origin) (lower_all lower cfg.allow_origins)

-- The middleware, on the lower case of a text, the decimal seconds of an age, and the origin and the
-- method of a request.
pub cors : (List ℕ → List ℕ) → (ℕ → List ℕ) → CorsConfig → List ℕ → List ℕ → CorsAnswer
unfolding allows_origin origin_headers credential_headers preflight_headers
cors lower seconds cfg origin method =
    let base = origin_headers cfg origin ++ credential_headers cfg in
    if origin == []
    then record { set_headers = []; served = true }
    else if allows_origin lower cfg origin
    then (if method == text "OPTIONS"
        then record { set_headers = base ++ preflight_headers seconds cfg; served = false }
        else record { set_headers = base; served = true })
    else record { set_headers = []; served = true }
