-- ===== src/Text/Decimal.antt =====
-- Decimal numbers as `fmt.Sprintf` prints them, for uint64.
use native.Mathlib.Nat.{pow-suc}
use mathlib.Core.Path.{subst}
use order_mock_payment.Prelude.{
  ℕ, zero, suc, ◌+◌, ◌-◌, ◌*◌, ◌/◌, ◌%◌, ◌^◌, ◌<◌, ◌≡◌, refl, [], ◌∷◌, arith, ltb, inl, inr,
  if◌then◌else◌, ◌∙◌, ap, sym, Bool-cases,
}
use order_mock_payment.Text.{Text}

-- The decimal digits of `n` in front of `out`, with fuel for as many digits.
emit : ℕ → ℕ → Text → Text
emit zero n out = out
emit (suc f) n out =
    let rest = emit f (n / 10) ((b'0' + n % 10) ∷ out) in
    if ltb n 10 then (b'0' + n % 10) ∷ out else rest

-- `%d`: a uint64 has at most 20 digits.
unfoldable pub decimal : ℕ → Text
unfolding emit
decimal n = emit 20 n []

zeros : ℕ → Text → Text
zeros zero s = s
zeros (suc k) s = b'0' ∷ zeros k s

abbrev count : Text → ℕ
count [] = 0
count (c ∷ s) = suc (count s)

-- `%0wd`
unfoldable pub padded : ℕ → ℕ → Text
unfolding zeros decimal
padded w n = zeros (w - count (decimal n)) (decimal n)

-- The number that digits stand for, behind a number already read.
value_from : ℕ → Text → ℕ
value_from a [] = a
value_from a (c ∷ s) = value_from (a * 10 + (c - b'0')) s

emit-tenth-lt : (n p : ℕ) → n < p * 10 → n / 10 < p
emit-tenth-lt n p h = omega arith

last_digit : (n : ℕ) → n / 10 * 10 + (b'0' + n % 10 - b'0') ≡ n
last_digit n = omega arith

value_from-emit :
    (f n : ℕ) (out : Text) → n < 10 ^ f → value_from 0 (emit f n out) ≡ value_from n out
unfolding emit value_from
value_from-emit zero n out h = ap (λ k. value_from k out) (omega arith)
value_from-emit (suc f) n out h = elim (Bool-cases (ltb n 10)) [
  | inl small ↦ rw small (ap (λ k. value_from k out) (ground arith))
  | inr large ↦ rw large (
      value_from-emit f (n / 10) ((b'0' + n % 10) ∷ out)
        (emit-tenth-lt n (10 ^ f) (subst (λ k. n < k) (pow-suc 10 f) h))
      ∙ ap (λ k. value_from k out) (last_digit n))
]

value_from-zeros : (k : ℕ) (s : Text) → value_from 0 (zeros k s) ≡ value_from 0 s
unfolding zeros value_from
value_from-zeros zero s = refl
value_from-zeros (suc k) s = value_from-zeros k s

value-padded : (w n : ℕ) → n < 10 ^ 20 → value_from 0 (padded w n) ≡ n
unfolding padded value_from
value-padded w n h = rw value_from-zeros (value_from-emit 20 n [] h)

-- Two numbers below 10^20 with the same digits are the same.
pub padded-injective : (w m n : ℕ) → m < 10 ^ 20 → n < 10 ^ 20 → padded w m ≡ padded w n → m ≡ n
padded-injective w m n hm hn e =
    sym (value-padded w m hm) ∙ ap (value_from 0) e ∙ value-padded w n hn
