-- ===== src/Seal.antt =====
-- seal/seal.go: signatures, expiring tokens and encrypted envelopes. Texts and byte slices are lists
-- of bytes. The primitives of package crypto, base64, JSON and the random bytes are parameters.
pub mod Tokens
pub mod Envelopes
pub mod Tests
use chassis_go.Prelude.{
  ℕ, zero, suc, ◌+◌, ◌-◌, ◌/◌, ◌%◌, ◌^◌, Bool, true, false, ltb, ◌==◌, nat_comparable,
  text_comparable, text, Option, none, some, List, [], ◌∷◌, ◌++◌, length, take, drop, lookup,
  insert, if◌then◌else◌,
}

-- `hex.EncodeToString`.
hex_digit : ℕ → ℕ
hex_digit n = if ltb n 10 then b'0' + n else b'a' + (n - 10)

unfoldable pub hex : List ℕ → List ℕ
unfolding hex_digit
hex [] = []
hex (b ∷ bytes) = hex_digit (b / 16) ∷ hex_digit (b % 16) ∷ hex bytes

-- `Sign`, on HMAC-SHA256 with its key and its message.
unfoldable pub sign : (List ℕ → List ℕ → List ℕ) → List ℕ → List ℕ → List ℕ
sign hmac payload secret = hex (hmac secret payload)

-- `Verify`.
pub verify : (List ℕ → List ℕ → List ℕ) → List ℕ → List ℕ → List ℕ → Bool
unfolding sign
verify hmac payload signature secret = sign hmac payload secret == signature

-- Whether the int64 of one bit pattern is greater than that of another.
unfoldable pub int64_gt : ℕ → ℕ → Bool
int64_gt a b = ltb ((b + 2 ^ 63) % 2 ^ 64) ((a + 2 ^ 63) % 2 ^ 64)

pub data SealError : Type 0 where
  token_invalid bad_signature token_expired decrypt_failed : SealError

pub data Result (A : Type 0) : Type 0 where
  ok : A → Result A
  err : SealError → Result A

-- What a token needs: the raw URL encoding of base64, JSON on maps of claims, the claims of a time
-- and of an id, and the int64 of a claim that is a number.
pub record TokenOps (V : Type 0) : Type 0 where
  pub hmac : List ℕ → List ℕ → List ℕ
  pub encode : List ℕ → List ℕ
  pub decode : List ℕ → Option (List ℕ)
  pub marshal : List (List ℕ × V) → Option (List ℕ)
  pub unmarshal : List ℕ → Option (List (List ℕ × V))
  pub of_int : ℕ → V
  pub of_text : List ℕ → V
  pub as_number : V → Option ℕ

-- The part before the last dot and the part behind it.
pub split_token : List ℕ → Option (List ℕ × List ℕ)
split_token [] = none
split_token (c ∷ s) = elim (split_token s) [
  | some (a, b) ↦ some (c ∷ a, b)
  | none ↦ if c == b'.' then some ([], s) else none
]

module _ {V : Type 0} (ops : TokenOps V) where
  -- The claims of a token: those given, with the expiry and the id. Times are int64 patterns.
  pub payload_of : List (List ℕ × V) → ℕ → ℕ → List ℕ → List (List ℕ × V)
  payload_of claims now ttl jti =
      insert (text "jti") (ops.of_text (hex jti))
        (insert (text "exp") (ops.of_int ((now + ttl) % 2 ^ 64)) claims)

  token_of : List ℕ → List ℕ → List ℕ
  token_of secret body = ops.encode body ++ b'.' ∷ sign ops.hmac body secret

  -- The token of a body; none is the error of JSON.
  sign_body : List ℕ → Option (List ℕ) → Option (List ℕ)
  unfolding token_of
  sign_body secret none = none
  sign_body secret (some body) = some (token_of secret body)

  -- `NewToken`, on the time and the random bytes.
  pub new_token : List (List ℕ × V) → List ℕ → ℕ → ℕ → List ℕ → Option (List ℕ)
  unfolding sign_body
  new_token claims secret ttl now jti =
      sign_body secret (ops.marshal (payload_of claims now ttl jti))

  check_exp : ℕ → List (List ℕ × V) → Option ℕ → Result (List (List ℕ × V))
  check_exp now claims none = err token_invalid
  check_exp now claims (some exp) = if int64_gt now exp then err token_expired else ok claims

  -- `claims["exp"].(float64)`.
  exp_claim : Option V → Option ℕ
  exp_claim none = none
  exp_claim (some v) = ops.as_number v

  check_claims : ℕ → Option (List (List ℕ × V)) → Result (List (List ℕ × V))
  unfolding check_exp exp_claim
  check_claims now none = err token_invalid
  check_claims now (some claims) = check_exp now claims (exp_claim (lookup (text "exp") claims))

  check_body : List ℕ → ℕ → List ℕ → Option (List ℕ) → Result (List (List ℕ × V))
  unfolding check_claims
  check_body secret now sig none = err token_invalid
  check_body secret now sig (some body) =
      if verify ops.hmac body sig secret
      then check_claims now (ops.unmarshal body)
      else err bad_signature

  check_parts : List ℕ → ℕ → Option (List ℕ × List ℕ) → Result (List (List ℕ × V))
  unfolding check_body
  check_parts secret now none = err token_invalid
  check_parts secret now (some (front, sig)) = check_body secret now sig (ops.decode front)

  -- `ValidateToken`, on the time.
  pub validate_token : List ℕ → List ℕ → ℕ → Result (List (List ℕ × V))
  unfolding check_parts
  validate_token token secret now = check_parts secret now (split_token token)

-- `Envelope`.
pub record Envelope : Type 0 where
  pub version : ℕ
  pub algorithm : List ℕ
  pub salt : List ℕ
  pub iv : List ℕ
  pub tag : List ℕ
  pub ct : List ℕ

-- Standard base64, scrypt, and AES-256-GCM on a key, a nonce and a text, with the length of its tag.
pub record CipherOps : Type 0 where
  pub encode : List ℕ → List ℕ
  pub decode : List ℕ → Option (List ℕ)
  pub scrypt_key : List ℕ → List ℕ → Option (List ℕ)
  pub gcm_seal : List ℕ → List ℕ → List ℕ → List ℕ
  pub gcm_open : List ℕ → List ℕ → List ℕ → Option (List ℕ)
  pub overhead : ℕ

opened : Option (List ℕ) → Result (List ℕ)
opened none = err decrypt_failed
opened (some plaintext) = ok plaintext

module _ (ops : CipherOps) where
  -- The envelope of a sealed text.
  envelope_of : List ℕ → List ℕ → List ℕ → Envelope
  envelope_of salt iv sealed =
      let start = length sealed - ops.overhead in
      record {
        version = 1;
        algorithm = text "aes-256-gcm";
        salt = ops.encode salt;
        iv = ops.encode iv;
        tag = ops.encode (drop start sealed);
        ct = ops.encode (take start sealed);
      }

  seal_with : List ℕ → List ℕ → List ℕ → Option (List ℕ) → Option Envelope
  unfolding envelope_of
  seal_with plaintext salt iv none = none
  seal_with plaintext salt iv (some key) =
      some (envelope_of salt iv (ops.gcm_seal key iv plaintext))

  -- `Encrypt`, on the random salt and nonce; none is an error of the primitives.
  pub encrypt : List ℕ → List ℕ → List ℕ → List ℕ → Option Envelope
  unfolding seal_with
  encrypt plaintext passphrase salt iv =
      seal_with plaintext salt iv (ops.scrypt_key passphrase salt)

  open_sealed : List ℕ → List ℕ → Option (List ℕ) → Result (List ℕ)
  unfolding opened
  open_sealed iv sealed none = err decrypt_failed
  open_sealed iv sealed (some key) = opened (ops.gcm_open key iv sealed)

  decrypt_parts :
      List ℕ
      → Option (List ℕ)
      → Option (List ℕ)
      → Option (List ℕ)
      → Option (List ℕ)
      → Result (List ℕ)
  unfolding open_sealed
  decrypt_parts pass (some salt) (some iv) (some tag) (some ct) =
      open_sealed iv (ct ++ tag) (ops.scrypt_key pass salt)
  decrypt_parts pass _ _ _ _ = err decrypt_failed

  -- `Decrypt`.
  pub decrypt : Envelope → List ℕ → Result (List ℕ)
  unfolding decrypt_parts
  decrypt env passphrase =
      if env.version == 1
      then (if env.algorithm == text "aes-256-gcm"
          then decrypt_parts passphrase (ops.decode env.salt) (ops.decode env.iv)
              (ops.decode env.tag) (ops.decode env.ct)
          else err decrypt_failed)
      else err decrypt_failed
