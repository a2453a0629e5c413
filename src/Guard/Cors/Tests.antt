-- ===== src/Guard/Cors/Tests.antt =====
-- A request with credentials from a listed origin.
use chassis_go.Prelude.{ℕ, ◌≡◌, refl, ◌==◌, Bool, true, false, text, List, [], ◌∷◌, Option, some}
use chassis_go.Guard.Cors.{CorsConfig, check_config, is_wildcard, allows_origin, cors}
use chassis_go.Guard.Cors.Origins.{Listed, has_header, cors-credentials}

abbrev same_case : List ℕ → List ℕ
same_case s = s

abbrev no_age : ℕ → List ℕ
no_age n = []

abbrev one_origin : CorsConfig
one_origin = record {
  allow_origins = text "a" ∷ [];
  allow_methods = text "GET" ∷ [];
  allow_headers = text "Accept" ∷ [];
  max_age = 0;
  allow_credentials = true;
}

one_origin_checked : check_config one_origin ≡ some one_origin
unfolding check_config chassis_go.Guard.Cors.among_texts chassis_go.Guard.Cors.or_default
    chassis_go.Prelude.same_text
one_origin_checked = refl

with_credentials :
    has_header
      (text "Access-Control-Allow-Credentials")
      (text "true")
      (cors same_case no_age one_origin (text "a") (text "GET")).set_headers
    ≡ true
unfolding cors allows_origin is_wildcard chassis_go.Guard.Cors.lower_all
    chassis_go.Guard.Cors.among_texts chassis_go.Guard.Cors.origin_headers
    chassis_go.Guard.Cors.credential_headers chassis_go.Prelude.same_text
with_credentials = refl

cors-credentials_example :
    (is_wildcard one_origin ≡ false)
    × Listed same_case (text "a") (text "a" ∷ [])
    × (has_header
          (text "Access-Control-Allow-Origin")
          (text "a")
          (cors same_case no_age one_origin (text "a") (text "GET")).set_headers
        ≡ true)
cors-credentials_example =
    cors-credentials same_case no_age one_origin one_origin (text "a") (text "GET")
      one_origin_checked with_credentials
