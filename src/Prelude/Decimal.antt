-- ===== src/Prelude/Decimal.antt =====
-- Decimal numerals, as `strconv.FormatInt` and `strconv.ParseInt` write and read them.
use Prim.Native.Nat.{ℕ, zero, suc, ◌+◌, ◌-◌, ◌*◌, ◌/◌, ◌%◌, ◌^◌, ◌<◌}
use mathlib.Core.Path.{◌≡◌, refl, sym, ap, ◌∙◌}
use mathlib.Core.Logic.{inl, inr}
use mathlib.Core.Bool.{Bool, true, ◌&&◌}
use mathlib.Core.Option.{Option, none, some}
use mathlib.Core.List.{List, [], ◌∷◌, ◌++◌}
use native.Mathlib.Omega.{arith}
use chassis_go.Prelude.Tests.{ltb, leb, ◌==◌, nat_comparable, if◌then◌else◌, Bool-cases}

-- Go's signed integers.
pub data ℤ : Type 0 where
  pos negsuc : ℕ → ℤ

-- The digits of a number, with as much fuel as the number and one more, which is enough since a
-- tenth of a positive number is smaller.
show_digits : ℕ → ℕ → List ℕ
show_digits zero n = []
show_digits (suc fuel) n =
    let front = show_digits fuel (n / 10) in
    if ltb n 10 then (b'0' + n) ∷ [] else front ++ (b'0' + n % 10) ∷ []

unfoldable pub decimal : ℕ → List ℕ
unfolding show_digits
decimal n = show_digits (suc n) n

abbrev is_digit : ℕ → Bool
is_digit c = leb b'0' c && leb c b'9'

read_digits : ℕ → List ℕ → Option ℕ
read_digits n [] = some n
read_digits n (c ∷ s) =
    let rest = read_digits (n * 10 + (c - b'0')) s in if is_digit c then rest else none

-- A text of one or more digits, as a number without a bound.
unfoldable pub parse_decimal : List ℕ → Option ℕ
unfolding read_digits
parse_decimal [] = none
parse_decimal (c ∷ s) = read_digits 0 (c ∷ s)

add_digit : ℕ → Option ℕ → Option ℕ
add_digit c none = none
add_digit c (some n) = if is_digit c then some (n * 10 + (c - b'0')) else none

read_digits-append :
    (n c : ℕ) (s : List ℕ) → read_digits n (s ++ c ∷ []) ≡ add_digit c (read_digits n s)
unfolding read_digits add_digit
read_digits-append n c [] = refl
read_digits-append n c (d ∷ s) = ground (arith, read_digits-append (n * 10 + (d - b'0')) c s)

read-show_digits : (fuel n : ℕ) → n < fuel → read_digits 0 (show_digits fuel n) ≡ some n
unfolding show_digits read_digits add_digit
read-show_digits zero n h = absurd (omega arith)
read-show_digits (suc fuel) n h = elim (Bool-cases (ltb n 10)) [
  | inl small ↦ ground arith
  | inr big ↦
      let front = show_digits fuel (n / 10) in
      let before = read-show_digits fuel (n / 10) (ground arith) in
      let all = read_digits-append 0 (b'0' + n % 10) front in
      rw big (rw (all, before) (ground arith))
]

nonempty : (s : List ℕ) (c : ℕ) → parse_decimal (s ++ c ∷ []) ≡ read_digits 0 (s ++ c ∷ [])
unfolding parse_decimal
nonempty [] c = refl
nonempty (d ∷ s) c = refl

pub parse_decimal-decimal : (n : ℕ) → parse_decimal (decimal n) ≡ some n
unfolding decimal show_digits
parse_decimal-decimal n = elim (Bool-cases (ltb n 10)) [
  | inl small ↦
      let one = nonempty [] (b'0' + n) in
      let whole = read-show_digits (suc n) n (omega arith) in rw small (one ∙ (rw small at whole))
  | inr big ↦
      let step = nonempty (show_digits n (n / 10)) (b'0' + n % 10) in
      let whole = read-show_digits (suc n) n (omega arith) in rw big (step ∙ (rw big at whole))
]

bounded_pos : Option ℕ → Option ℤ
bounded_pos none = none
bounded_pos (some n) = if ltb n (2 ^ 63) then some (pos n) else none

bounded_neg : Option ℕ → Option ℤ
bounded_neg none = none
bounded_neg (some zero) = some (pos zero)
bounded_neg (some (suc n)) = if ltb n (2 ^ 63) then some (negsuc n) else none

-- `strconv.ParseInt(s, 10, 64)`, on the sign, if there is one.
unfoldable pub parse_int64 : List ℕ → Option ℤ
unfolding bounded_pos bounded_neg
parse_int64 [] = none
parse_int64 (c ∷ s) =
    if c == b'-'
    then bounded_neg (parse_decimal s)
    else if c == b'+'
    then bounded_pos (parse_decimal s)
    else bounded_pos (parse_decimal (c ∷ s))

show_digits-head :
    (fuel n : ℕ)
    → n < fuel
    → (c : ℕ) × (s : List ℕ) × (show_digits fuel n ≡ c ∷ s) × (is_digit c ≡ true)
unfolding show_digits
show_digits-head zero n h = absurd (omega arith)
show_digits-head (suc fuel) n h = elim (Bool-cases (ltb n 10)) [
  | inl small ↦ (b'0' + n, [], rw small refl, ground arith)
  | inr big ↦
      let (c, s, e, d) = show_digits-head fuel (n / 10) (ground arith) in
      (c, s ++ (b'0' + n % 10) ∷ [], rw (big, e) refl, d)
]

parse_int64_digits :
    (c : ℕ) (s : List ℕ)
    → is_digit c ≡ true
    → parse_int64 (c ∷ s) ≡ bounded_pos (parse_decimal (c ∷ s))
unfolding parse_int64
parse_int64_digits c s d = ground arith

pub parse_int64-decimal : (n : ℕ) → n < 2 ^ 63 → parse_int64 (decimal n) ≡ some (pos n)
unfolding decimal bounded_pos
parse_int64-decimal n h =
    let (c, s, e, d) = show_digits-head (suc n) n (omega arith) in
    let whole : parse_decimal (c ∷ s) ≡ some n =
      sym (ap parse_decimal e) ∙ parse_decimal-decimal n in
    ap parse_int64 e ∙ parse_int64_digits c s d ∙ ap bounded_pos whole ∙ ground arith
