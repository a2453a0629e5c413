-- ===== src/Webhook/RoundTrip.antt =====
-- Which payloads are accepted.
use chassis_go.Prelude.{
  ℕ, zero, suc, ◌+◌, ◌-◌, ◌*◌, ◌^◌, ◌%◌, ◌≤◌, ◌<◌, ◌≡◌, refl, ap, sym, ◌∙◌, Bool, true, false, ltb,
  leb, ◌==◌, ◌&&◌, ◌||◌, text_comparable, same_text_iff, text, Option, none, some, List, [], ◌∷◌,
  ◌++◌, length, take, drop, is_empty, ℤ, pos, negsuc, decimal, parse_decimal, parse_decimal-decimal,
  parse_int64, parse_int64-decimal, if◌then◌else◌, arith, Bool-cases, inl, inr, ◌⊎◌,
}
use chassis_go.Seal.{hex, sign, verify, int64_gt}
use chassis_go.Seal.Tokens.{verify-sign, verify_sound}
use chassis_go.Webhook.{
  Headers, sign_headers, saturate_pos, saturate_neg, since, absolute, is_stale, strip_prefix,
  accepted, expired, check_time, verify_payload,
}

-- Within five minutes on either side a timestamp is fresh.
is_stale_near :
    (now ts : ℕ)
    → ts < 2 ^ 62
    → now ≤ ts * 1000000000 + 300000000000
    → ts * 1000000000 ≤ now + 300000000000
    → is_stale now (pos ts) ≡ false
unfolding is_stale since absolute saturate_pos saturate_neg int64_gt
is_stale_near now ts b h g = ground arith

strip_prefix-append : (s : List ℕ) → is_empty s ≡ false → strip_prefix (text "sha256=" ++ s) ≡ s
unfolding strip_prefix chassis_go.Prelude.same_text
strip_prefix-append [] h = cc
strip_prefix-append (c ∷ s) h = ground arith

numeral_given : (n : ℕ) (s : List ℕ) → parse_decimal s ≡ some n → is_empty s ≡ false
unfolding chassis_go.Prelude.parse_decimal
numeral_given n [] h = cc
numeral_given n (c ∷ s) h = refl

hex_given : (s : List ℕ) → is_empty s ≡ false → is_empty (hex s) ≡ false
unfolding chassis_go.Seal.hex
hex_given [] h = cc
hex_given (b ∷ s) h = refl

sign-is_empty :
    (hmac : List ℕ → List ℕ → List ℕ) (body secret : List ℕ)
    → is_empty (hmac secret body) ≡ false
    → is_empty (sign hmac body secret) ≡ false
unfolding chassis_go.Seal.sign chassis_go.Seal.hex
sign-is_empty hmac body secret h = hex_given (hmac secret body) h

-- Signed headers are judged by their age alone.
verify_fresh :
    (hmac : List ℕ → List ℕ → List ℕ) (body secret : List ℕ) (ts now : ℕ)
    → ((key message : List ℕ) → is_empty (hmac key message) ≡ false)
    → ts < 2 ^ 62
    → is_stale now (pos ts) ≡ false
    → verify_payload hmac now (sign_headers hmac ts body secret) body secret ≡ accepted body
unfolding verify_payload check_time sign_headers
verify_fresh hmac body secret ts now given small fresh =
    let message = decimal ts ++ b'.' ∷ body in
    let signed = sign-is_empty hmac message secret (given secret message) in
    rw
      (
        numeral_given ts (decimal ts) (parse_decimal-decimal ts),
        parse_int64-decimal ts (omega arith),
        fresh,
        strip_prefix-append (sign hmac message secret) signed,
        verify-sign hmac message secret,
      )
      refl

is_stale_far :
    (now ts : ℕ) → ts < 2 ^ 62 → now + 2 ^ 63 ≤ ts * 1000000000 → is_stale now (pos ts) ≡ false
unfolding is_stale since absolute saturate_pos saturate_neg chassis_go.Seal.int64_gt
is_stale_far now ts b far = ground arith

-- A signature whose timestamp lies 2 ^ 63 nanoseconds or more ahead of the clock is accepted as a
-- fresh one, when HMAC gives one byte or more and the timestamp is below 2 ^ 62: its age is the least
-- int64, which is its own negation.
pub verify_payload-far_future :
    (hmac : List ℕ → List ℕ → List ℕ) (body secret : List ℕ) (ts now : ℕ)
    → ((key message : List ℕ) → is_empty (hmac key message) ≡ false)
    → ts < 2 ^ 62
    → now + 2 ^ 63 ≤ ts * 1000000000
    → verify_payload hmac now (sign_headers hmac ts body secret) body secret ≡ accepted body
verify_payload-far_future hmac body secret ts now given small far =
    verify_fresh hmac body secret ts now given small (is_stale_far now ts small far)

-- Whether a timestamp is five minutes away at most.
abbrev pub is_near : ℕ → ℕ → Bool
is_near now ts =
    leb now (ts * 1000000000 + 300000000000) && leb (ts * 1000000000) (now + 300000000000)

is_stale_old :
    (now ts : ℕ)
    → ts < 2 ^ 62
    → ts * 1000000000 < now + 2 ^ 63
    → is_near now ts ≡ false
    → is_stale now (pos ts) ≡ true
unfolding is_stale since absolute saturate_pos saturate_neg chassis_go.Seal.int64_gt
is_stale_old now ts b small far = ground arith

verify_stale :
    (hmac : List ℕ → List ℕ → List ℕ) (body secret : List ℕ) (ts now : ℕ)
    → ts < 2 ^ 62
    → is_stale now (pos ts) ≡ true
    → verify_payload hmac now (sign_headers hmac ts body secret) body secret ≡ expired
unfolding verify_payload check_time sign_headers
verify_stale hmac body secret ts now small old =
    rw
      (
        numeral_given ts (decimal ts) (parse_decimal-decimal ts),
        parse_int64-decimal ts (omega arith),
        old,
      )
      refl

-- A receiver with the same secret accepts the headers that `Send` makes at a time `ts` in seconds,
-- with the body that was sent, if its clock is five minutes away at most, and otherwise finds them
-- expired: when HMAC gives one byte or more, and `ts` is below 2 ^ 62 and less than 2 ^ 63 nanoseconds
-- ahead of the clock.
pub verify_payload-sign_headers :
    (hmac : List ℕ → List ℕ → List ℕ) (body secret : List ℕ) (ts now : ℕ)
    → ((key message : List ℕ) → is_empty (hmac key message) ≡ false)
    → ts < 2 ^ 62
    → ts * 1000000000 < now + 2 ^ 63
    → verify_payload hmac now (sign_headers hmac ts body secret) body secret
      ≡ (if is_near now ts then accepted body else expired)
verify_payload-sign_headers hmac body secret ts now given small near =
    elim (Bool-cases (is_near now ts)) [
      | inl fresh ↦
          let young = is_stale_near now ts small (ground arith) (ground arith) in
          rw fresh (verify_fresh hmac body secret ts now given small young)
      | inr far ↦
          let old = is_stale_old now ts small near far in
          rw far (verify_stale hmac body secret ts now small old)
    ]

check_time-accepted :
    (hmac : List ℕ → List ℕ → List ℕ) (body secret got : List ℕ) (h : Headers) (now : ℕ)
    (parsed : Option ℤ)
    → parse_int64 h.timestamp ≡ parsed
    → check_time hmac now h body secret parsed ≡ accepted got
    → (ts : ℤ) × (parse_int64 h.timestamp ≡ some ts)
      × (is_stale now ts ≡ false)
      × (strip_prefix h.signature ≡ sign hmac (h.timestamp ++ b'.' ∷ body) secret)
      × (got ≡ body)
unfolding check_time
check_time-accepted hmac body secret got h now none e g = cc
check_time-accepted hmac body secret got h now (some ts) e g =
    let message = h.timestamp ++ b'.' ∷ body in
    let good = verify hmac message (strip_prefix h.signature) secret in
    elim (Bool-cases (is_stale now ts)) [
      | inl old ↦ absurd (ground arith)
      | inr fresh ↦ elim (Bool-cases good) [
        | inr bad ↦ absurd (ground arith)
        | inl valid ↦ (
          ts,
          e,
          fresh,
          sym (verify_sound hmac message (strip_prefix h.signature) secret valid),
          ground arith,
        )
      ]
    ]

-- What is accepted was signed with the secret, timestamp and body together, is returned unchanged,
-- and has a timestamp that is an int64 and not stale.
pub verify_payload_sound :
    (hmac : List ℕ → List ℕ → List ℕ) (body secret got : List ℕ) (h : Headers) (now : ℕ)
    → verify_payload hmac now h body secret ≡ accepted got
    → (ts : ℤ) × (parse_int64 h.timestamp ≡ some ts)
      × (is_stale now ts ≡ false)
      × (strip_prefix h.signature ≡ sign hmac (h.timestamp ++ b'.' ∷ body) secret)
      × (got ≡ body)
unfolding verify_payload
verify_payload_sound hmac body secret got h now g =
    elim (Bool-cases (is_empty h.signature || is_empty h.timestamp)) [
      | inl missing ↦ absurd (ground arith)
      | inr given ↦
          check_time-accepted hmac body secret got h now (parse_int64 h.timestamp) refl
            (rw given at g)
    ]
