-- ===== src/Server/Guarded.antt =====
-- Requests without a valid token (internal/middleware/auth.go, in front of internal/server).
use mathlib.Core.Path.{subst}
use mathlib.Core.Option.{some-injective}
use order_mock_payment.Prelude.{
  ℕ, zero, suc, String, ◌≡◌, refl, Bool, true, false, not, ◌&&◌, some, List, [], ◌∷◌, str_eq,
}
use order_mock_payment.Go.Error.{Error}
use order_mock_payment.Go.Exec.{Result, ok, err}
use order_mock_payment.Text.{Text, Unicode}
use order_mock_payment.Numeric.{Numeric}
use order_mock_payment.Database.World.{World, Environment}
use order_mock_payment.Database.Table.Unique.{All}
use order_mock_payment.Http.{Claims, Context, Handler, failure, code_unauthorized}
use order_mock_payment.Middleware.{require_auth, with_token, with_claims, extract_bearer}
use order_mock_payment.Server.{Inputs, Body, Route, nth}
use order_mock_payment.Server.Routes.{routes, auth_mw, parse_token}
use order_mock_payment.Server.Effects.{token_claims, authenticated}

-- The groups of the API in which every request needs a token: all but "/auth".
abbrev pub is_protected : List String → Bool
is_protected (base ∷ (group ∷ path)) = str_eq base "/api/v1" && not (str_eq group "/auth")
is_protected pattern = false

module _ {S B : Type 0} ⦃u : Unicode⦄ (parse : Text → Result Claims) (next : Context → Handler S B)
    (c : Context) (s : S) where
  claims-refused :
      (r : Result Claims) (e : Error)
      → r ≡ err e
      → with_claims parse next r c s ≡ (failure 401 code_unauthorized "authentication required", s)
  claims-refused (ok claims) e h = cc
  claims-refused (err d) e h = refl

  token-refused :
      (t : Result Text) (e : Error)
      → token_claims parse t ≡ err e
      → with_token parse next t c s ≡ (failure 401 code_unauthorized "authentication required", s)
  token-refused (ok token) e h = claims-refused (parse token) e h
  token-refused (err d) e h = refl

module _ {D : Type 0} ⦃u : Unicode⦄ ⦃n : Numeric D⦄ (env : Environment) (inputs : Inputs D)
    (c : Context) (w : World D) {e : Error} (refused : authenticated env c w ≡ err e) where
  abbrev Refuses : Route (World D) (Body D) → Type 0
  Refuses r =
      is_protected r.pattern ≡ true
      → r.handler c w ≡ (failure 401 code_unauthorized "authentication required", w)

  auth-Refuses :
      (next : Context → Handler (World D) (Body D))
      → auth_mw env next c w ≡ (failure 401 code_unauthorized "authentication required", w)
  unfolding require_auth
  auth-Refuses next =
      token-refused (parse_token env w) next c w (extract_bearer c.authorization) e refused

  routes-Refuse : All Refuses (routes env inputs)
  routes-Refuse = (
    λ p. cc,
    (
      λ p. cc,
      (
        λ p. cc,
        (
          λ p. cc,
          (
            λ p. cc,
            (
              λ p. auth-Refuses _,
              (
                λ p. auth-Refuses _,
                (
                  λ p. auth-Refuses _,
                  (
                    λ p. auth-Refuses _,
                    (
                      λ p. auth-Refuses _,
                      (
                        λ p. auth-Refuses _,
                        (
                          λ p. auth-Refuses _,
                          (λ p. auth-Refuses _, (λ p. auth-Refuses _, (λ p. cc, tt))),
                        ),
                      ),
                    ),
                  ),
                ),
              ),
            ),
          ),
        ),
      ),
    ),
  )

  nth-Refuses :
      (rs : List (Route (World D) (Body D))) (i : ℕ) {r : Route (World D) (Body D)}
      → All Refuses rs
      → nth i rs ≡ some r
      → Refuses r
  nth-Refuses [] i a h = cc
  nth-Refuses (x ∷ rs) zero {r} a h = subst Refuses (some-injective x r h) a.0
  nth-Refuses (x ∷ rs) (suc i) a h = nth-Refuses rs i a.1 h

  -- Let the Authorization header of a request hold no bearer token, or one that is not parsed.
  -- Then every route below /api/v1, those of the group /auth apart, answers it with the status
  -- 401 and the code UNAUTHORIZED and leaves the state as it was.
  pub route-guarded :
      (i : ℕ) {r : Route (World D) (Body D)}
      → nth i (routes env inputs) ≡ some r
      → is_protected r.pattern ≡ true
      → r.handler c w ≡ (failure 401 code_unauthorized "authentication required", w)
  route-guarded i h = nth-Refuses (routes env inputs) i routes-Refuse h
