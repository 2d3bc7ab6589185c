-- ===== src/Text/Path/Clean.antt =====
-- `filepath.Clean` of a name without separators.
use order_mock_payment.Prelude.{
  ◌≡◌, refl, Bool, true, false, ◌||◌, [], ◌∷◌, ◌==◌, inl, inr, Bool-cases, sym, ap, ◌∙◌,
}
use mathlib.Core.List.{reverse}
use order_mock_payment.Text.{Text, text_eq, text_eq_iff, is_empty}
use order_mock_payment.Text.Path.{
  slash, split, dot, dot_dot, walk, joined, is_rooted, printed, clean, has_prefix,
  contains_separator, contains_dot_dot,
}

or-false : (a b : Bool) → (a || b) ≡ false → (a ≡ false) × (b ≡ false)
or-false true b e = cc
or-false false b e = (refl, e)

-- A name without separators is one piece.
split-one : (name : Text) → contains_separator name ≡ false → split name ≡ name ∷ []
unfolding split contains_separator
split-one [] e = refl
split-one (c ∷ s) e =
    let (first, rest) = or-false (c == slash || c == b'\\') (contains_separator s) e in
    rw ((or-false (c == slash) (c == b'\\') first).0, split-one s rest) refl

is_rooted-false : (name : Text) → contains_separator name ≡ false → is_rooted name ≡ false
unfolding contains_separator
is_rooted-false [] e = refl
is_rooted-false (c ∷ s) e =
    (or-false (c == slash) (c == b'\\')
      (or-false (c == slash || c == b'\\') (contains_separator s) e).0).0

dot_dot-contained : contains_dot_dot dot_dot ≡ true
unfolding contains_dot_dot has_prefix
dot_dot-contained = refl

not_dot_dot : (name : Text) → contains_dot_dot name ≡ false → text_eq name dot_dot ≡ false
not_dot_dot name e = elim (Bool-cases (text_eq name dot_dot)) [
  | inr d ↦ d
  | inl d ↦
      let same = ap contains_dot_dot ((text_eq_iff name dot_dot).0 d) in
      let contained = dot_dot-contained in cc
]

-- What is printed of one piece.
printed-one :
    (name : Text)
    → is_empty name ≡ false
    → text_eq name dot_dot ≡ false
    → printed false (reverse (walk false [] (name ∷ []))) ≡ name
unfolding walk joined
printed-one [] given d = cc
printed-one (c ∷ s) given d = elim (Bool-cases (text_eq (c ∷ s) dot)) [
  | inl h ↦ rw h (sym ((text_eq_iff (c ∷ s) dot).0 h))
  | inr h ↦ rw (h, d) refl
]

-- A name with neither separators nor ".." is clean, the empty name apart.
pub clean-name :
    (name : Text)
    → is_empty name ≡ false
    → contains_separator name ≡ false
    → contains_dot_dot name ≡ false
    → clean name ≡ name
unfolding clean
clean-name name given e d =
    ap (λ ps. printed (is_rooted name) (reverse (walk (is_rooted name) [] ps))) (split-one name e)
    ∙ ap (λ r. printed r (reverse (walk r [] (name ∷ [])))) (is_rooted-false name e)
    ∙ printed-one name given (not_dot_dot name d)
