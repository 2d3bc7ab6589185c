-- ===== src/Auth/Service/Login.antt =====
-- Who can log in (internal/auth/service.go, Login).
use order_mock_payment.Prelude.{◌≡◌, refl, true, false, Option, Bool-cases, inl, inr}
use order_mock_payment.Go.Error.{Error, is}
use order_mock_payment.Go.Exec.{ok, err}
use order_mock_payment.Go.Exec.Cases.{Result-cases, answer-cases}
use order_mock_payment.Text.{Text, Unicode, is_empty}
use order_mock_payment.Auth.Model.{User}
use order_mock_payment.Auth.Errors.{err_user_not_found, err_invalid_credentials}
use order_mock_payment.Auth.Service.{Service, LoginRequest, normalize_email, login}

module _ {S : Type 0} ⦃u : Unicode⦄ (parse_address : Text → Option Text) (s : Service S)
    (req : LoginRequest) (w : S) where
  -- A login that succeeds, over any repository, hasher and issuer, has read the returned user
  -- under the normalized email of the request, the password of the request compares with the
  -- stored hash, and the token is the one issued for this user.
  pub login-authentic :
      {x : User} {token : Text} {w1 : S}
      → login parse_address s req w ≡ (ok (x, token), w1)
      → (email : Text) × (w0 : S) × (normalize_email parse_address req.email ≡ ok email)
        × (s.repo.get_by_email email w ≡ (ok x, w0))
        × (s.hasher.compare req.password x.password_hash ≡ ok tt)
        × (s.token_issuer.generate x w0 ≡ (ok token, w1))
  unfolding login
  login-authentic {x} {token} {w1} e =
      elim (Result-cases (normalize_email parse_address req.email)) [
        | inr (c, n) ↦ let k = rw n at e in cc
        | inl (email, n) ↦ elim (Bool-cases (is_empty req.password)) [
          | inl p ↦ let k = rw (n, p) at e in cc
          | inr p ↦ elim (answer-cases (s.repo.get_by_email email w)) [
            | inr (c, w0, h) ↦ let k = rw (n, p, h) at e in cc
            | inl (y, w0, h) ↦ elim (Result-cases (s.hasher.compare req.password y.password_hash)) [
              | inr (c, q) ↦ let k = rw (n, p, h, q) at e in cc
              | inl (t, q) ↦ elim (answer-cases (s.token_issuer.generate y w0)) [
                | inr (c, w2, g) ↦ let k = rw (n, p, h, q, g) at e in cc
                | inl (t', w2, g) ↦ let k = rw (n, p, h, q, g) at e in (email, w0, n, cc, cc, cc)
              ]
            ]
          ]
        ]
      ]

  module _ {email : Text} (named : normalize_email parse_address req.email ≡ ok email)
      (given : is_empty req.password ≡ false) where
    pub login-unknown :
        {e : Error} {w0 : S}
        → s.repo.get_by_email email w ≡ (err e, w0)
        → is e err_user_not_found ≡ true
        → login parse_address s req w ≡ (err err_invalid_credentials, w0)
    unfolding login
    login-unknown h i = rw (named, given, h, i) refl

    pub login-wrong :
        {x : User} {e : Error} {w0 : S}
        → s.repo.get_by_email email w ≡ (ok x, w0)
        → s.hasher.compare req.password x.password_hash ≡ err e
        → login parse_address s req w ≡ (err err_invalid_credentials, w0)
    unfolding login
    login-wrong h c = rw (named, given, h, c) refl

    pub login-right :
        {x : User} {token : Text} {w0 w1 : S}
        → s.repo.get_by_email email w ≡ (ok x, w0)
        → s.hasher.compare req.password x.password_hash ≡ ok tt
        → s.token_issuer.generate x w0 ≡ (ok token, w1)
        → login parse_address s req w ≡ (ok (x, token), w1)
    unfolding login
    login-right h c g = rw (named, given, h, c, g) refl
