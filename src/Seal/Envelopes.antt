-- ===== src/Seal/Envelopes.antt =====
-- What is encrypted can be decrypted.
use chassis_go.Prelude.{
  ℕ, ◌+◌, ◌-◌, ◌≡◌, refl, ap, ◌∙◌, true, ◌==◌, text_comparable, same_text_iff, text, Option, none,
  some, List, [], ◌∷◌, ◌++◌, length, take, drop, take-drop, Option-cases, inl, inr, if◌then◌else◌,
  arith,
}
use chassis_go.Seal.{
  CipherOps, Envelope, ok, envelope_of, seal_with, encrypt, decrypt, decrypt_parts, open_sealed,
  opened,
}

-- What package crypto and base64 document: decoding undoes encoding, and opening undoes sealing with
-- the same key and nonce.
pub record IsCipher (ops : CipherOps) : Type 0 where
  pub decodes : (s : List ℕ) → ops.decode (ops.encode s) ≡ some s
  pub opens :
      (key iv plaintext : List ℕ)
      → ops.gcm_open key iv (ops.gcm_seal key iv plaintext) ≡ some plaintext

decrypt-envelope_of :
    (ops : CipherOps) (plaintext pass salt iv key : List ℕ)
    → IsCipher ops
    → ops.scrypt_key pass salt ≡ some key
    → decrypt ops (envelope_of ops salt iv (ops.gcm_seal key iv plaintext)) pass ≡ ok plaintext
unfolding envelope_of decrypt decrypt_parts open_sealed opened chassis_go.Prelude.same_text
decrypt-envelope_of ops plaintext pass salt iv key c e =
    let sealed = ops.gcm_seal key iv plaintext in
    let start = length sealed - ops.overhead in
    rw
      (
        c.decodes salt,
        c.decodes iv,
        c.decodes (drop start sealed),
        c.decodes (take start sealed),
        take-drop start sealed,
        e,
        c.opens key iv plaintext,
      )
      refl

decrypt-seal_with :
    (ops : CipherOps) (plaintext pass salt iv : List ℕ) (found : Option (List ℕ)) (env : Envelope)
    → IsCipher ops
    → ops.scrypt_key pass salt ≡ found
    → seal_with ops plaintext salt iv found ≡ some env
    → decrypt ops env pass ≡ ok plaintext
unfolding seal_with
decrypt-seal_with ops plaintext pass salt iv none env c e h = cc
decrypt-seal_with ops plaintext pass salt iv (some key) env c e h =
    let same : env ≡ envelope_of ops salt iv (ops.gcm_seal key iv plaintext) = cc in
    rw same (decrypt-envelope_of ops plaintext pass salt iv key c e)

-- An envelope that `Encrypt` makes, with any salt and nonce, is decrypted by the same passphrase to
-- the text that was encrypted.
pub decrypt-encrypt :
    (ops : CipherOps) (plaintext passphrase salt iv : List ℕ) (env : Envelope)
    → IsCipher ops
    → encrypt ops plaintext passphrase salt iv ≡ some env
    → decrypt ops env passphrase ≡ ok plaintext
unfolding encrypt
decrypt-encrypt ops plaintext passphrase salt iv env c h =
    decrypt-seal_with ops plaintext passphrase salt iv (ops.scrypt_key passphrase salt) env c refl h
