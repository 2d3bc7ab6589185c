-- ===== src/Text.antt =====
-- Go strings that the program walks: sequences of code points, with the byte length of their UTF-8
-- form, and what the source uses of the packages strings and unicode.
pub mod Trim
pub mod Decimal
pub mod Path
use Prim.Native.Char.{code}
use order_mock_payment.Prelude.{
  ℕ, suc, ◌+◌, ◌≡◌, refl, ap, ◌↔◌, String, Bool, true, false, ◌&&◌, ◌||◌, List, [], ◌∷◌, map, arith,
  ltb, leb, ◌==◌, if◌then◌else◌,
}

abbrev pub Text : Type 0
Text = List ℕ

-- A literal.
abbrev pub codes : String → Text
codes String.[] = []
codes (String.◌∷◌ c s) = code c ∷ codes s

-- `s == t`
unfoldable pub text_eq : Text → Text → Bool
text_eq [] [] = true
text_eq [] (d ∷ t) = false
text_eq (c ∷ s) [] = false
text_eq (c ∷ s) (d ∷ t) = c == d && text_eq s t

pub text_eq_iff : (s t : Text) → (text_eq s t ≡ true) ↔ (s ≡ t)
unfolding text_eq
text_eq_iff [] [] = ground arith
text_eq_iff [] (d ∷ t) = ground arith
text_eq_iff (c ∷ s) [] = ground arith
text_eq_iff (c ∷ s) (d ∷ t) = ground (arith, text_eq_iff s t)

abbrev pub is_empty : Text → Bool
is_empty [] = true
is_empty (c ∷ s) = false

abbrev rune_len : ℕ → ℕ
rune_len c = if ltb c 128 then 1 else if ltb c 2048 then 2 else if ltb c 65536 then 3 else 4

-- `len(s)`: the number of bytes.
unfoldable pub len : Text → ℕ
len [] = 0
len (c ∷ s) = rune_len c + len s

-- The case mappings of package unicode, by code point; `fold` is the representative of a code
-- point's orbit under simple folding.
pub record Unicode : Type 0 where
  pub upper : ℕ → ℕ
  pub lower : ℕ → ℕ
  pub fold : ℕ → ℕ

-- `strings.ToUpper`, `strings.ToLower` and `strings.EqualFold`
abbrev pub to_upper : ⦃u : Unicode⦄ → Text → Text
to_upper ⦃u⦄ s = map u.upper s

abbrev pub to_lower : ⦃u : Unicode⦄ → Text → Text
to_lower ⦃u⦄ s = map u.lower s

abbrev pub equal_fold : ⦃u : Unicode⦄ → Text → Text → Bool
equal_fold ⦃u⦄ s t = text_eq (map u.fold s) (map u.fold t)
