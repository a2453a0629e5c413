-- ===== src/Seal/Tokens.antt =====
-- Which tokens are accepted.
use chassis_go.Prelude.{
  ℕ, ◌+◌, ◌-◌, ◌%◌, ◌^◌, ◌<◌, ◌≤◌, ◌≡◌, refl, ap, sym, ◌∙◌, Bool, true, false, ltb, ◌==◌,
  nat_comparable, text_comparable, same_text_iff, text, Option, none, some, List, [], ◌∷◌, ◌++◌,
  lookup, insert, lookup-insert, Option-cases, Bool-cases, inl, inr, if◌then◌else◌, arith, All,
}
use chassis_go.Seal.{
  TokenOps, ok, err, token_expired, hex_digit, hex, sign, verify, int64_gt, split_token, payload_of,
  token_of, sign_body, new_token, check_exp, exp_claim, check_claims, check_body, check_parts,
  validate_token,
}

-- Whether a dot is among the bytes.
abbrev has_dot : List ℕ → Bool
has_dot [] = false
has_dot (c ∷ s) = if c == b'.' then true else has_dot s

hex-has_dot : (s : List ℕ) → has_dot (hex s) ≡ false
unfolding hex hex_digit
hex-has_dot [] = refl
hex-has_dot (b ∷ s) = ground (arith, hex-has_dot s)

split_token_undotted : (s : List ℕ) → has_dot s ≡ false → split_token s ≡ none
unfolding split_token
split_token_undotted [] h = refl
split_token_undotted (c ∷ s) h =
    let rest = split_token_undotted s (ground arith) in rw rest (ground arith)

split_token-append : (a b : List ℕ) → has_dot b ≡ false → split_token (a ++ b'.' ∷ b) ≡ some (a, b)
unfolding split_token
split_token-append [] b h = rw (split_token_undotted b h) refl
split_token-append (c ∷ a) b h = rw (split_token-append a b h) refl

split_token_sound : (s a b : List ℕ) → split_token s ≡ some (a, b) → s ≡ a ++ b'.' ∷ b
unfolding split_token
split_token_sound [] a b h = cc
split_token_sound (c ∷ s) a b h = elim (Option-cases (split_token s)) [
  | inr ((x, y), e) ↦ let rest = split_token_sound s x y e in ground (arith, rest)
  | inl e ↦ ground arith
]

pub verify-sign :
    (hmac : List ℕ → List ℕ → List ℕ) (body secret : List ℕ)
    → verify hmac body (sign hmac body secret) secret ≡ true
unfolding verify
verify-sign hmac body secret =
    (same_text_iff (sign hmac body secret) (sign hmac body secret)).1 refl

pub verify_sound :
    (hmac : List ℕ → List ℕ → List ℕ) (body signature secret : List ℕ)
    → verify hmac body signature secret ≡ true
    → sign hmac body secret ≡ signature
unfolding verify
verify_sound hmac body signature secret v = (same_text_iff (sign hmac body secret) signature).0 v

abbrev pub decoded_as : {V : Type 0} → (V → V) → Option V → Option V
decoded_as decoded none = none
decoded_as decoded (some v) = some (decoded v)

module _ {V : Type 0} (ops : TokenOps V) where
  -- What packages base64 and json document: decoding undoes encoding; a map that is marshalled is
  -- unmarshalled to the same keys, with values as JSON decodes them; and a number of 53 bits is kept.
  pub record IsCodec (decoded : V → V) : Type 0 where
    pub decodes : (s : List ℕ) → ops.decode (ops.encode s) ≡ some s
    pub unmarshals :
        (claims : List (List ℕ × V)) (body : List ℕ)
        → ops.marshal claims ≡ some body
        → (back : List (List ℕ × V)) × (ops.unmarshal body ≡ some back)
          × ((k : List ℕ) → lookup k back ≡ decoded_as decoded (lookup k claims))
    pub numbers : (n : ℕ) → n < 2 ^ 53 → ops.as_number (decoded (ops.of_int n)) ≡ some n

  check_claims_back :
      (decoded : V → V) (back : List (List ℕ × V)) (later exp : ℕ)
      → lookup (text "exp") back ≡ some (decoded (ops.of_int exp))
      → ops.as_number (decoded (ops.of_int exp)) ≡ some exp
      → check_claims ops later (some back)
        ≡ (if int64_gt later exp then err token_expired else ok back)
  unfolding check_claims check_exp exp_claim
  check_claims_back decoded back later exp h n = rw (h, exp_claim, n, check_exp) refl

  exp_of :
      (decoded : V → V) (claims : List (List ℕ × V)) (now ttl : ℕ) (jti : List ℕ)
      → decoded_as decoded (lookup (text "exp") (payload_of ops claims now ttl jti))
        ≡ some (decoded (ops.of_int ((now + ttl) % 2 ^ 64)))
  unfolding payload_of chassis_go.Prelude.same_text
  exp_of decoded claims now ttl jti =
      let exp = ops.of_int ((now + ttl) % 2 ^ 64) in
      let timed = insert (text "exp") exp claims in
      let past = lookup-insert (text "jti") (text "exp") (ops.of_text (hex jti)) timed in
      let at = lookup-insert (text "exp") (text "exp") exp claims in rw (past ∙ at, decoded_as) refl

  -- The token of a body is split and verified again.
  check_token_of :
      (decoded : V → V) (secret body : List ℕ) (later : ℕ)
      → IsCodec decoded
      → validate_token ops (token_of ops secret body) secret later
        ≡ check_claims ops later (ops.unmarshal body)
  unfolding validate_token check_parts check_body token_of sign
  check_token_of decoded secret body later c =
      rw
        (
          split_token-append (ops.encode body) (sign ops.hmac body secret)
              (hex-has_dot (ops.hmac secret body)),
          check_parts,
          c.decodes body,
          check_body,
          verify-sign ops.hmac body secret,
        )
        refl

  -- What a token that was made holds.
  abbrev pub Kept : (V → V) → List (List ℕ × V) → List (List ℕ × V) → Type 0
  Kept decoded claims back = (k : List ℕ) → lookup k back ≡ decoded_as decoded (lookup k claims)

  validate-sign_body :
      (decoded : V → V) (claims : List (List ℕ × V)) (secret jti token : List ℕ) (ttl now later : ℕ)
      (marshalled : Option (List ℕ))
      → IsCodec decoded
      → (now + ttl) % 2 ^ 64 < 2 ^ 53
      → ops.marshal (payload_of ops claims now ttl jti) ≡ marshalled
      → sign_body ops secret marshalled ≡ some token
      → (back : List (List ℕ × V)) × (validate_token ops token secret later
          ≡ (if int64_gt later ((now + ttl) % 2 ^ 64) then err token_expired else ok back))
        × Kept decoded (payload_of ops claims now ttl jti) back
  unfolding sign_body
  validate-sign_body decoded claims secret jti token ttl now later none c small m h = cc
  validate-sign_body decoded claims secret jti token ttl now later (some body) c small m h =
      let (back, u, kept) = c.unmarshals (payload_of ops claims now ttl jti) body m in
      let exp = (now + ttl) % 2 ^ 64 in
      let same : token ≡ token_of ops secret body = cc in
      let found = kept (text "exp") ∙ exp_of decoded claims now ttl jti in
      let checked = check_claims_back decoded back later exp found (c.numbers exp small) in
      (
        back,
        ap (λ t. validate_token ops t secret later) same
            ∙ check_token_of decoded secret body later c
            ∙ ap (check_claims ops later) u
            ∙ checked,
        kept,
      )

  -- A token that `NewToken` makes is validated by the same secret until it expires, and is expired
  -- from then on: until then it gives the claims it was made of, as JSON decodes them, with the
  -- expiry and the id. The expiry is a number of 53 bits, which JSON keeps.
  pub validate_token-new_token :
      (decoded : V → V) (claims : List (List ℕ × V)) (secret jti token : List ℕ) (ttl now later : ℕ)
      → IsCodec decoded
      → (now + ttl) % 2 ^ 64 < 2 ^ 53
      → new_token ops claims secret ttl now jti ≡ some token
      → (back : List (List ℕ × V)) × (validate_token ops token secret later
          ≡ (if int64_gt later ((now + ttl) % 2 ^ 64) then err token_expired else ok back))
        × Kept decoded (payload_of ops claims now ttl jti) back
  unfolding new_token
  validate_token-new_token decoded claims secret jti token ttl now later c small h =
      validate-sign_body decoded claims secret jti token ttl now later
        (ops.marshal (payload_of ops claims now ttl jti)) c small refl h

  -- What an accepted token is: its body, which the secret signed.
  abbrev pub IsSigned : List ℕ → List ℕ → List (List ℕ × V) → Type 0
  IsSigned token secret claims =
      (front body : List ℕ) × (token ≡ front ++ b'.' ∷ sign ops.hmac body secret)
      × (ops.decode front ≡ some body)
      × (ops.unmarshal body ≡ some claims)

  exp_sound :
      (now : ℕ) (back claims : List (List ℕ × V)) (exp : Option ℕ)
      → check_exp ops now back exp ≡ ok claims
      → back ≡ claims
  unfolding check_exp
  exp_sound now back claims none h = cc
  exp_sound now back claims (some exp) h = ground arith

  claims_sound :
      (now : ℕ) (parsed : Option (List (List ℕ × V))) (claims : List (List ℕ × V))
      → check_claims ops now parsed ≡ ok claims
      → parsed ≡ some claims
  unfolding check_claims check_exp exp_claim
  claims_sound now none claims h = cc
  claims_sound now (some back) claims h =
      ap some (exp_sound now back claims (exp_claim ops (lookup (text "exp") back)) h)

  parts_sound :
      (token secret : List ℕ) (now : ℕ) (found : Option (List ℕ × List ℕ))
      (claims : List (List ℕ × V))
      → split_token token ≡ found
      → check_parts ops secret now found ≡ ok claims
      → IsSigned token secret claims
  unfolding check_parts check_body verify
  parts_sound token secret now none claims e h = cc
  parts_sound token secret now (some (front, sig)) claims e h =
      elim (Option-cases (ops.decode front)) [
        | inl d ↦ absurd (ground arith)
        | inr (body, d) ↦ elim (Bool-cases (verify ops.hmac body sig secret)) [
          | inl v ↦
              let signed : sign ops.hmac body secret ≡ sig = (same_text_iff _ sig).0 v in
              let split = split_token_sound token front sig e in
              let passed : check_claims ops now (ops.unmarshal body) ≡ ok claims =
                rw (d, check_body, v) at h in
              (front, body, rw signed split, d, claims_sound now (ops.unmarshal body) claims passed)
          | inr v ↦ absurd (ground arith)
        ]
      ]

  -- Only what the secret signed is accepted: an accepted token is an encoded body and the signature
  -- of that body, and gives the claims of that body.
  pub validate_token_sound :
      (token secret : List ℕ) (now : ℕ) (claims : List (List ℕ × V))
      → validate_token ops token secret now ≡ ok claims
      → IsSigned token secret claims
  unfolding validate_token
  validate_token_sound token secret now claims h =
      parts_sound token secret now (split_token token) claims refl h
