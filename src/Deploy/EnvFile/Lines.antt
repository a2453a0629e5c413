-- ===== src/Deploy/EnvFile/Lines.antt =====
-- A quoted assignment is read as it was written.
use chassis_go.Prelude.{
  ℕ, ◌≡◌, refl, ap, ◌∙◌, Bool, true, false, ltb, ◌==◌, ◌&&◌, ◌||◌, nat_comparable, has_prefix, some,
  List, [], ◌∷◌, ◌++◌, arith,
}
use chassis_go.Deploy.{System}
use chassis_go.Deploy.EnvFile.{cut_equals, split_last, strip_quotes, pair_of, parse_line}

abbrev has_equals : List ℕ → Bool
has_equals [] = false
has_equals (c ∷ s) = c == b'=' || has_equals s

cut_equals-append : (k v : List ℕ) → has_equals k ≡ false → cut_equals (k ++ b'=' ∷ v) ≡ some (k, v)
unfolding cut_equals
cut_equals-append [] v h = refl
cut_equals-append (c ∷ k) v h = ground (arith, cut_equals-append k v)

split_last-append : (c q : ℕ) (s : List ℕ) → split_last c (s ++ q ∷ []) ≡ (c ∷ s, q)
unfolding split_last
split_last-append c q [] = refl
split_last-append c q (d ∷ s) = rw (split_last-append d q s) refl

final-append :
    (c d : ℕ) (s rest : List ℕ) → (split_last c (s ++ d ∷ rest)).1 ≡ (split_last d rest).1
unfolding split_last
final-append c d [] rest = refl
final-append c d (e ∷ s) rest = final-append e d s rest

abbrev is_quote : ℕ → Bool
is_quote q = q == b'"' || q == 39

strip_quotes-quoted :
    (q : ℕ) (v : List ℕ) → is_quote q ≡ true → strip_quotes (q ∷ (v ++ q ∷ [])) ≡ v
unfolding strip_quotes split_last
strip_quotes-quoted q [] h = ground arith
strip_quotes-quoted q (c ∷ v) h = rw (split_last-append c q v) (ground arith)

-- A byte of a character that is no space, whatever follows it.
abbrev is_plain : ℕ → Bool
is_plain c = ltb 32 c && ltb c 128

-- Whether a text begins and ends with such a byte.
abbrev pub is_trimmed : List ℕ → Bool
is_trimmed [] = false
is_trimmed (c ∷ s) = is_plain c && is_plain (split_last c s).1

module _ (sys : System) where
  -- `strings.TrimSpace` keeps a text that begins and ends with no space.
  abbrev pub Trims : Type 0
  Trims = (s : List ℕ) → is_trimmed s ≡ true → sys.trim_space s ≡ s

  -- An assignment of a key, which has no `=`, begins and ends with no space and does not begin with
  -- `#`, to any value between two quotes of one kind is read as that key and that value.
  pub parse_line-quoted :
      (c q : ℕ) (key value : List ℕ)
      → Trims
      → is_trimmed (c ∷ key) ≡ true
      → has_equals (c ∷ key) ≡ false
      → (c == b'#') ≡ false
      → is_quote q ≡ true
      → parse_line sys (c ∷ (key ++ b'=' ∷ q ∷ (value ++ q ∷ []))) ≡ some (c ∷ key, value)
  unfolding parse_line pair_of has_prefix split_last
  parse_line-quoted c q key value t trimmed plain no_comment quote =
      let line : List ℕ = c ∷ (key ++ b'=' ∷ q ∷ (value ++ q ∷ [])) in
      let final : (split_last c (key ++ b'=' ∷ q ∷ (value ++ q ∷ []))).1 ≡ q =
        final-append c b'=' key (q ∷ (value ++ q ∷ []))
        ∙ ap (λ o. o.1) (split_last-append q q value) in
      let quoted : is_plain q ≡ true = ground arith in
      let begun : is_plain c ≡ true = ground arith in
      let kept : sys.trim_space line ≡ line = t line (rw (begun, final, quoted) refl) in
      let cut = cut_equals-append (c ∷ key) (q ∷ (value ++ q ∷ [])) plain in
      let key_kept = t (c ∷ key) trimmed in
      let value_kept : sys.trim_space (q ∷ (value ++ q ∷ [])) ≡ q ∷ (value ++ q ∷ []) =
        t _ (rw (quoted, split_last-append q q value) (ground arith)) in
      rw (kept, no_comment, cut, key_kept, value_kept, strip_quotes-quoted q value quote) refl
