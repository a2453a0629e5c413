-- ===== src/Seal/Tests.antt =====
-- A codec that marks each byte, and a cipher that hides nothing.
use mathlib.Core.List.{append_assoc, append-nil}
use chassis_go.Prelude.{
  ℕ, ◌+◌, ◌%◌, ◌^◌, ◌<◌, ◌≡◌, refl, ap, sym, ◌∙◌, Bool, true, false, ◌==◌, nat_comparable,
  text_comparable, text, Option, none, some, List, [], ◌∷◌, ◌++◌, lookup, if◌then◌else◌, arith,
}
use chassis_go.Seal.{
  TokenOps, CipherOps, Envelope, Result, ok, err, token_expired, int64_gt, sign, payload_of,
  new_token, validate_token, encrypt, decrypt,
}
use chassis_go.Seal.Tokens.{
  IsCodec, Kept, decoded_as, IsSigned, validate_token-new_token, validate_token_sound,
}
use chassis_go.Seal.Envelopes.{IsCipher}

abbrev Claims : Type 0
Claims = List (List ℕ × ℕ)

abbrev add_claim : List ℕ → ℕ → Option Claims → Option Claims
add_claim k v none = none
add_claim k v (some m) = some ((k, v) ∷ m)

abbrev mark : List ℕ → List ℕ → List ℕ
mark [] rest = rest
mark (c ∷ k) rest = 1 ∷ c ∷ mark k rest

abbrev marshal_marked : Claims → List ℕ
marshal_marked [] = []
marshal_marked ((k, v) ∷ m) = mark k (0 ∷ v ∷ marshal_marked m)

abbrev read_marked : List ℕ → List ℕ → Option Claims
read_marked key [] = some []
read_marked key (x ∷ []) = none
read_marked key (x ∷ c ∷ s) =
    let inner = read_marked (key ++ c ∷ []) s in
    let next = read_marked [] s in if x == 1 then inner else add_claim key c next

read_mark :
    (key k rest : List ℕ) (v : ℕ)
    → read_marked key (mark k (0 ∷ v ∷ rest)) ≡ add_claim (key ++ k) v (read_marked [] rest)
read_mark key [] rest v = rw (append-nil key) refl
read_mark key (c ∷ k) rest v =
    read_mark (key ++ c ∷ []) k rest v ∙ rw (append_assoc key (c ∷ []) k) refl

read-marshal : (m : Claims) → read_marked [] (marshal_marked m) ≡ some m
read-marshal [] = refl
read-marshal ((k, v) ∷ m) =
    read_mark [] k (marshal_marked m) v ∙ ap (add_claim k v) (read-marshal m)

abbrev plain_ops : TokenOps ℕ
plain_ops = record {
  hmac = λ key message. key ++ message;
  encode = λ s. s;
  decode = λ s. some s;
  marshal = λ m. some (marshal_marked m);
  unmarshal = read_marked [];
  of_int = λ n. n;
  of_text = λ t. 0;
  as_number = λ n. some n;
}

same_decoded : (o : Option ℕ) → o ≡ decoded_as (λ v. v) o
same_decoded none = refl
same_decoded (some v) = refl

unmarshals_plain :
    (claims : Claims) (body : List ℕ)
    → some (marshal_marked claims) ≡ some body
    → (back : Claims) × (read_marked [] body ≡ some back)
      × ((k : List ℕ) → lookup k back ≡ decoded_as (λ v. v) (lookup k claims))
unmarshals_plain claims body h =
    let same : body ≡ marshal_marked claims = cc in
    (claims, ap (read_marked []) same ∙ read-marshal claims, λ k. same_decoded (lookup k claims))

plain_ops-IsCodec : IsCodec plain_ops (λ v. v)
plain_ops-IsCodec = record {
  decodes = λ s. refl;
  unmarshals = unmarshals_plain;
  numbers = λ n h. refl;
}

abbrev claims : Claims
claims = (text "sub", 7) ∷ []

abbrev secret : List ℕ
secret = text "s"

abbrev body_made : List ℕ
body_made = marshal_marked (payload_of plain_ops claims 100 60 [])

abbrev token_made : List ℕ
token_made = body_made ++ b'.' ∷ sign plain_ops.hmac body_made secret

made : new_token plain_ops claims secret 60 100 [] ≡ some token_made
unfolding new_token chassis_go.Seal.sign_body chassis_go.Seal.token_of
made = refl

small_exp : (100 + 60) % 2 ^ 64 < 2 ^ 53
small_exp = omega arith

validate_token-new_token_example :
    (back : Claims) × (validate_token plain_ops token_made secret 120
      ≡ (if int64_gt 120 ((100 + 60) % 2 ^ 64) then err token_expired else ok back))
    × Kept plain_ops (λ v. v) (payload_of plain_ops claims 100 60 []) back
validate_token-new_token_example =
    validate_token-new_token plain_ops (λ v. v) claims secret [] token_made 60 100 120
      plain_ops-IsCodec small_exp made

accepted :
    validate_token plain_ops token_made secret 120 ≡ ok (payload_of plain_ops claims 100 60 [])
unfolding validate_token chassis_go.Seal.split_token payload_of chassis_go.Prelude.insert
    chassis_go.Prelude.same_text sign chassis_go.Seal.hex chassis_go.Seal.verify lookup int64_gt
accepted = refl

validate_token_sound_example :
    IsSigned plain_ops token_made secret (payload_of plain_ops claims 100 60 [])
validate_token_sound_example =
    validate_token_sound plain_ops token_made secret 120 (payload_of plain_ops claims 100 60 [])
      accepted

abbrev plain_cipher : CipherOps
plain_cipher = record {
  encode = λ s. s;
  decode = λ s. some s;
  scrypt_key = λ pass salt. some (pass ++ salt);
  gcm_seal = λ key iv s. s;
  gcm_open = λ key iv s. some s;
  overhead = 1;
}

plain_cipher-IsCipher : IsCipher plain_cipher
plain_cipher-IsCipher = record { decodes = λ s. refl; opens = λ key iv s. refl }

abbrev sealed_two : Envelope
sealed_two = record {
  version = 1;
  algorithm = text "aes-256-gcm";
  salt = text "x";
  iv = text "y";
  tag = text "i";
  ct = text "h";
}

encrypted : encrypt plain_cipher (text "hi") (text "p") (text "x") (text "y") ≡ some sealed_two
unfolding encrypt chassis_go.Seal.seal_with chassis_go.Seal.envelope_of
encrypted = refl
