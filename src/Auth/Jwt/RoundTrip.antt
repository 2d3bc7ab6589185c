-- ===== src/Auth/Jwt/RoundTrip.antt =====
-- Reading the tokens that the service has made (internal/auth/jwt.go).
use order_mock_payment.Prelude.{ℕ, ◌+◌, ◌*◌, ◌≤◌, ◌<◌, ◌≡◌, refl, inl, inr, Bool, true, some, arith}
use order_mock_payment.Go.Error.{Error}
use order_mock_payment.Go.Exec.{Result, ok, err}
use order_mock_payment.Go.Exec.Cases.{Result-cases}
use order_mock_payment.Text.{Text}
use order_mock_payment.Auth.Model.{User}
use order_mock_payment.Auth.Errors.{err_invalid_token}
use order_mock_payment.Auth.Jwt.{
  JwtLibrary, JwtClaims, UuidText, HmacTokenService, key_of, claims_at, generate, parse,
}

-- The nanoseconds of a second.
abbrev pub second : ℕ
second = 1000000000

-- A time is kept as its whole seconds.
abbrev pub Truncates : (ℕ → ℕ) → Type 0
Truncates date = (t : ℕ) → (date t * second ≤ t) × (t < date t * second + second)

module _ (jwt : JwtLibrary) (uuid : UuidText) (t : HmacTokenService) where
  -- What a token that was made holds.
  generate_signed :
      (u : User) (issued : ℕ) {raw : Text}
      → generate jwt uuid t issued u ≡ ok raw
      → jwt.signed_string t.secret (claims_at jwt uuid t issued u) ≡ ok raw
  unfolding generate
  generate_signed u issued {raw} e =
      elim (Result-cases (jwt.signed_string t.secret (claims_at jwt uuid t issued u))) [
        | inr (c, g) ↦ let d = rw g at e in cc
        | inl (s, g) ↦ let d = rw g at e in cc
      ]

-- The library keeps times as whole seconds, and reads a token that was signed with a secret if it is
-- given this secret for HMAC, from the time of issue until the time of expiry.
module _ (jwt : JwtLibrary) (truncates : Truncates jwt.new_numeric_date)
    (reads : (secret : Text) (c : JwtClaims) (raw : Text) (key : Bool → Result Text) (now : ℕ)
      → jwt.signed_string secret c ≡ ok raw
      → key true ≡ ok secret
      → c.issued_at * second ≤ now
      → now < c.expires_at * second
      → jwt.parse_with_claims key now raw ≡ ok (c, true))
    (uuid : UuidText) (prints : (i : ℕ) → uuid.parse (uuid.print i) ≡ some i)
    (t : HmacTokenService) where
  -- Let the token library keep a time as its whole seconds, and read every token that it has
  -- signed with a secret, when it is given this secret for HMAC and the time is from the issue to
  -- before the expiry that the token holds; and let the parser of UUIDs read every UUID as it is
  -- printed. Then a token that the service has made for a user is parsed, from its issue for as
  -- long as at least a second of its time to live is left, to the identifier and the email of
  -- this user.
  pub parse-generate :
      (u : User) (issued now : ℕ) {raw : Text}
      → generate jwt uuid t issued u ≡ ok raw
      → issued ≤ now
      → now + second ≤ issued + t.ttl
      → parse jwt uuid t now raw ≡ ok (record { user_id = u.id; email = u.email })
  unfolding parse
  parse-generate u issued now {raw} e h k =
      rw
        (reads t.secret (claims_at jwt uuid t issued u) raw (key_of t.secret) now
          (generate_signed jwt uuid t u issued e) refl (omega (arith, truncates issued))
          (omega (arith, truncates (issued + t.ttl))))
        (rw (prints u.id) refl)

-- The library refuses a token from the time of expiry.
module _ (jwt : JwtLibrary) (truncates : Truncates jwt.new_numeric_date)
    (refuses : (secret : Text) (c : JwtClaims) (raw : Text) (key : Bool → Result Text) (now : ℕ)
      → jwt.signed_string secret c ≡ ok raw
      → c.expires_at * second ≤ now
      → (e : Error) × (jwt.parse_with_claims key now raw ≡ err e))
    (uuid : UuidText) (t : HmacTokenService) where
  -- Let the token library keep a time as its whole seconds, and refuse every token that it has
  -- signed from the expiry that the token holds. Then a token that the service has made is
  -- refused as invalid once its time to live is over.
  pub parse-expired :
      (u : User) (issued now : ℕ) {raw : Text}
      → generate jwt uuid t issued u ≡ ok raw
      → issued + t.ttl ≤ now
      → parse jwt uuid t now raw ≡ err err_invalid_token
  unfolding parse
  parse-expired u issued now {raw} e h =
      let (c, refused) =
        refuses t.secret (claims_at jwt uuid t issued u) raw (key_of t.secret) now
          (generate_signed jwt uuid t u issued e) (omega (arith, truncates (issued + t.ttl))) in
      rw refused refl
