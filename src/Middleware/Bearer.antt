-- ===== src/Middleware/Bearer.antt =====
-- Which requests reach a protected handler (internal/middleware/auth.go).
use order_mock_payment.Prelude.{
  ℕ, ◌≡◌, ◌⊎◌, inl, inr, refl, ap, true, false, Option, none, some, [], ◌∷◌, ◌++◌, ◌==◌, eq_of_==,
  Bool-cases, Option-cases,
}
use order_mock_payment.Go.Exec.{Result, ok}
use order_mock_payment.Go.Exec.Cases.{Result-cases}
use order_mock_payment.Text.{Text, Unicode, codes, equal_fold, is_empty}
use order_mock_payment.Text.Trim.{trim_space}
use order_mock_payment.Http.{Claims, Context, Handler}
use order_mock_payment.Middleware.{prepend, split_space, extract_bearer, unauthorized, require_auth}

prepend-some :
    (c : ℕ) (o : Option (Text × Text)) {a b : Text}
    → prepend c o ≡ some (a, b)
    → (t : Text) × (o ≡ some (t, b)) × (a ≡ c ∷ t)
prepend-some c none e = cc
prepend-some c (some (x, y)) e = (x, cc, cc)

some-pair :
    (x y : Text) {a b : Text}
    → ◌≡◌ {A = Option (Text × Text)} (some (x, y)) (some (a, b))
    → (a ≡ x) × (b ≡ y)
some-pair x y e = (cc, cc)

split_space-some : (s : Text) {a b : Text} → split_space s ≡ some (a, b) → s ≡ a ++ (32 ∷ b)
unfolding split_space
split_space-some [] e = cc
split_space-some (c ∷ s) {a} {b} e = elim (Bool-cases (c == 32)) [
  | inl h ↦ let (p, q) = some-pair [] s (rw h at e) in let d = eq_of_== c 32 h in rw (p, q, d) refl
  | inr h ↦
      let (t, g, q) = prepend-some c (split_space s) (rw h at e) in
      rw q (ap (λ k. c ∷ k) (split_space-some s g))
]

-- A header of a scheme that is "Bearer" in any case, a space, and a token between spaces.
pub record IsBearer ⦃u : Unicode⦄ (header token : Text) : Type 0 where
  pub scheme : Text
  pub rest : Text
  pub parts : header ≡ scheme ++ (32 ∷ rest)
  pub named : equal_fold scheme (codes "Bearer") ≡ true
  pub trimmed : token ≡ trim_space rest
  pub given : is_empty token ≡ false

extract_bearer-IsBearer :
    ⦃u : Unicode⦄ → (header token : Text) → extract_bearer header ≡ ok token → IsBearer header token
unfolding extract_bearer
extract_bearer-IsBearer header token e = elim (Bool-cases (is_empty header)) [
  | inl h ↦ let k = rw h at e in cc
  | inr h ↦ elim (Option-cases (split_space header)) [
    | inl p ↦ let k = rw (h, p) at e in cc
    | inr ((scheme, rest), p) ↦ elim (Bool-cases (equal_fold scheme (codes "Bearer"))) [
      | inr f ↦ let k = rw (h, p, f) at e in cc
      | inl f ↦ elim (Bool-cases (is_empty (trim_space rest))) [
        | inl m ↦ let k = rw (h, p, f, m) at e in cc
        | inr m ↦
            let k = rw (h, p, f, m) at e in
            let same : token ≡ trim_space rest = cc in
            record {
              scheme = scheme;
              rest = rest;
              parts = split_space-some header p;
              named = f;
              trimmed = same;
              given = rw same m;
            }
      ]
    ]
  ]
]

module _ {S B : Type 0} ⦃u : Unicode⦄ (parse : Text → Result Claims) (next : Context → Handler S B)
    (c : Context) (s : S) where
  -- For any parser of tokens and any handler behind the middleware: either the answer is the one
  -- for an unauthenticated request and the state is unchanged; or the header is a scheme equal to
  -- "Bearer" up to case, a space and a token, the parser accepts the token trimmed of spaces,
  -- which is not empty, and the handler is run with the claims that the parser returns.
  pub require_auth-admits :
      (require_auth parse next c s ≡ unauthorized s)
      ⊎ ((token : Text) × (claims : Claims) × IsBearer c.authorization token
          × (parse token ≡ ok claims)
          × (require_auth parse next c s ≡ next (record c { claims = some claims }) s))
  unfolding require_auth
  require_auth-admits = elim (Result-cases (extract_bearer c.authorization)) [
    | inr (e, h) ↦ inl (rw h refl)
    | inl (token, h) ↦ elim (Result-cases (parse token)) [
      | inr (e, p) ↦ inl (rw (h, p) refl)
      | inl (claims, p) ↦
          inr (token, claims, extract_bearer-IsBearer c.authorization token h, p, rw (h, p) refl)
    ]
  ]
