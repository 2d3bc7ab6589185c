-- ===== src/Examples/Library.antt =====
-- A library for tokens and identifiers, for the examples.
use order_mock_payment.Prelude.{
  ℕ, zero, suc, ◌*◌, ◌/◌, Bool, true, Option, none, some, [], ◌∷◌, ◌++◌, ltb, leb, ◌&&◌,
  if◌then◌else◌,
}
use order_mock_payment.Go.Exec.{Result, ok, err}
use order_mock_payment.Text.{Text, codes, text_eq}
use order_mock_payment.Auth.Errors.{err_invalid_token}
use order_mock_payment.Auth.Jwt.{JwtLibrary, JwtClaims, UuidText, HmacTokenService}

abbrev pub count : Text → ℕ
count [] = 0
count (c ∷ s) = suc (count s)

abbrev pub first : ℕ → Text × Text → Text × Text
first c (a, b) = (c ∷ a, b)

-- The first `n` characters, and the rest.
unfoldable pub cut : ℕ → Text → Text × Text
cut zero s = ([], s)
cut (suc n) [] = ([], [])
cut (suc n) (c ∷ s) = first c (cut n s)

-- A token is the two times, the secret and the email with their lengths, and the subject.
abbrev pub packed : Text → JwtClaims → Text
packed secret c =
    c.issued_at
    ∷ (c.expires_at ∷ (count secret ∷ (count c.email ∷ (secret ++ (c.email ++ c.subject)))))

abbrev fits : ℕ → ℕ → ℕ → Text → Text → Text × Text → Result (JwtClaims × Bool)
fits issued expires now key secret (email, subject) =
    if text_eq key secret && leb (issued * 1000000000) now && ltb now (expires * 1000000000)
    then ok (
      record { email = email; subject = subject; issued_at = issued; expires_at = expires },
      true,
    )
    else err err_invalid_token

unfoldable pub read : Result Text → ℕ → Text → Result (JwtClaims × Bool)
unfolding cut
read (err e) now raw = err e
read (ok key) now (issued ∷ (expires ∷ (n ∷ (m ∷ s)))) =
    fits issued expires now key (cut n s).0 (cut m (cut n s).1)
read (ok key) now s = err err_invalid_token

abbrev pub library : JwtLibrary
library = record {
  new_numeric_date = λ t. t / 1000000000;
  signed_string = λ secret c. ok (packed secret c);
  parse_with_claims = λ key now raw. read (key true) now raw;
}

abbrev number : Text → Option ℕ
number [] = none
number (i ∷ s) = some i

-- The number of a UUID as one character.
abbrev pub one_character : UuidText
one_character = record { print = λ i. i ∷ []; parse = number }

abbrev pub ten_minutes : HmacTokenService
ten_minutes = record { secret = codes "a secret"; ttl = 600000000000 }
