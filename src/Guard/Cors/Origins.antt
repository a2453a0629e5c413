-- ===== src/Guard/Cors/Origins.antt =====
-- Credentials are never allowed for every origin.
use mathlib.Core.List.{Mem, mem-cons_self, mem-cons_of_mem}
use chassis_go.Prelude.{
  ℕ, ◌≡◌, ◌≢◌, refl, Bool, true, false, ◌==◌, ◌||◌, ◌&&◌, text_comparable, same_text_iff, text,
  List, [], ◌∷◌, ◌++◌, Option, none, some, if◌then◌else◌, arith, Bool-cases, inl, inr, ◌⊎◌, All,
}
use chassis_go.Guard.Cors.{
  CorsConfig, check_config, among_texts, lower_all, is_wildcard, origin_headers, credential_headers,
  preflight_headers, allows_origin, cors,
}

-- Whether some header has this name and value.
abbrev pub has_header : List ℕ → List ℕ → List (List ℕ × List ℕ) → Bool
has_header name value [] = false
has_header name value (h ∷ hs) = (h.0 == name && h.1 == value) || has_header name value hs

check_credentials :
    (cfg checked : CorsConfig)
    → check_config cfg ≡ some checked
    → checked.allow_credentials ≡ true
    → is_wildcard checked ≡ false
unfolding check_config is_wildcard
check_credentials cfg checked h c = ground arith

credentials_on :
    (cfg : CorsConfig)
    → has_header (text "Access-Control-Allow-Credentials") (text "true") (credential_headers cfg)
      ≡ true
    → cfg.allow_credentials ≡ true
unfolding credential_headers
credentials_on cfg h = ground arith

-- An origin that is in a list up to case.
abbrev pub Listed : (List ℕ → List ℕ) → List ℕ → List (List ℕ) → Type 0
Listed lower origin os = (o : List ℕ) × Mem o os × (lower o ≡ lower origin)

among-Listed :
    (lower : List ℕ → List ℕ) (origin : List ℕ) (os : List (List ℕ))
    → among_texts (lower origin) (lower_all lower os) ≡ true
    → Listed lower origin os
unfolding among_texts lower_all
among-Listed lower origin [] h = cc
among-Listed lower origin (o ∷ os) h = elim (Bool-cases (lower o == lower origin)) [
  | inl same ↦ (o, mem-cons_self, (text_comparable.same_iff (lower o) (lower origin)).0 same)
  | inr other ↦
      let (found, member, same) = among-Listed lower origin os (ground arith) in
      (found, mem-cons_of_mem o member, same)
]

allows_origin-Listed :
    (lower : List ℕ → List ℕ) (cfg : CorsConfig) (origin : List ℕ)
    → is_wildcard cfg ≡ false
    → allows_origin lower cfg origin ≡ true
    → Listed lower origin cfg.allow_origins
unfolding allows_origin
allows_origin-Listed lower cfg origin narrow h =
    among-Listed lower origin cfg.allow_origins (ground arith)

allowed_with_credentials :
    (lower : List ℕ → List ℕ) (seconds : ℕ → List ℕ) (cfg : CorsConfig) (origin method : List ℕ)
    → has_header
        (text "Access-Control-Allow-Credentials")
        (text "true")
        (cors lower seconds cfg origin method).set_headers
      ≡ true
    → allows_origin lower cfg origin ≡ true
unfolding cors
allowed_with_credentials lower seconds cfg origin method h = ground arith

credentials_checked :
    (lower : List ℕ → List ℕ) (seconds : ℕ → List ℕ) (cfg : CorsConfig) (origin method : List ℕ)
    → has_header
        (text "Access-Control-Allow-Credentials")
        (text "true")
        (cors lower seconds cfg origin method).set_headers
      ≡ true
    → cfg.allow_credentials ≡ true
unfolding cors origin_headers credential_headers preflight_headers chassis_go.Prelude.same_text
credentials_checked lower seconds cfg origin method h = ground arith

-- If a response allows credentials, then the configuration, which passed the checks of `CORS`, has
-- no wildcard, the request's origin is on its list, up to case, and that origin is the one allowed.
pub cors-credentials :
    (lower : List ℕ → List ℕ) (seconds : ℕ → List ℕ) (cfg checked : CorsConfig)
    (origin method : List ℕ)
    → check_config cfg ≡ some checked
    → has_header
        (text "Access-Control-Allow-Credentials")
        (text "true")
        (cors lower seconds checked origin method).set_headers
      ≡ true
    → (is_wildcard checked ≡ false)
      × Listed lower origin checked.allow_origins
      × (has_header
            (text "Access-Control-Allow-Origin")
            origin
            (cors lower seconds checked origin method).set_headers
          ≡ true)
unfolding cors origin_headers is_wildcard chassis_go.Prelude.same_text
cors-credentials lower seconds cfg checked origin method checks h =
    let allowed = allowed_with_credentials lower seconds checked origin method h in
    let narrow : is_wildcard checked ≡ false =
      check_credentials cfg checked checks
        (credentials_checked lower seconds checked origin method h) in
    let answered : has_header (text "Access-Control-Allow-Origin") origin
          (cors lower seconds checked origin method).set_headers
        ≡ true =
      ground (arith, same_text_iff origin origin, allowed, narrow) in
    (narrow, allows_origin-Listed lower checked origin narrow allowed, answered)
