-- ===== src/Examples/Tokens.antt =====
-- A token of a user, and its reading.
use order_mock_payment.Prelude.{
  ℕ, ◌*◌, ◌/◌, inl, inr, ◌≤◌, ◌<◌, ◌≡◌, refl, sym, ap, Bool, true, [], ◌∷◌, ◌++◌, arith,
}
use order_mock_payment.Go.Exec.{Result, ok, err}
use order_mock_payment.Go.Error.{Error}
use order_mock_payment.Go.Exec.Cases.{Result-cases}
use order_mock_payment.Auth.Model.{User}
use order_mock_payment.Auth.Errors.{err_invalid_token}
use order_mock_payment.Text.{Text, codes, text_eq_iff}
use order_mock_payment.Auth.Jwt.{JwtClaims, generate, parse}
use order_mock_payment.Auth.Jwt.RoundTrip.{second, Truncates, parse-generate, parse-expired}
use order_mock_payment.Examples.Library.{
  count, first, cut, packed, read, library, one_character, ten_minutes,
}
use order_mock_payment.Examples.Data.{user}

cut-count : (s r : Text) → cut (count s) (s ++ r) ≡ (s, r)
unfolding cut
cut-count [] r = refl
cut-count (c ∷ s) r = ap (first c) (cut-count s r)

read-packed :
    (secret : Text) (c : JwtClaims) (now : ℕ)
    → c.issued_at * second ≤ now
    → now < c.expires_at * second
    → read (ok secret) now (packed secret c) ≡ ok (c, true)
unfolding read
read-packed secret c now h k =
    rw
      (
        cut-count secret (c.email ++ c.subject),
        cut-count c.email c.subject,
        (text_eq_iff secret secret).1 refl,
      )
      (ground arith)

abbrev text_of : Result Text → Text
text_of (ok s) = s
text_of (err e) = []

reads :
    (secret : Text) (c : JwtClaims) (raw : Text) (key : Bool → Result Text) (now : ℕ)
    → ok (packed secret c) ≡ ok raw
    → key true ≡ ok secret
    → c.issued_at * second ≤ now
    → now < c.expires_at * second
    → read (key true) now raw ≡ ok (c, true)
reads secret c raw key now e k h l = rw (k, sym (ap text_of e)) (read-packed secret c now h l)

refused :
    (key secret : Text) (c : JwtClaims) (now : ℕ)
    → c.expires_at * second ≤ now
    → read (ok key) now (packed secret c) ≡ err err_invalid_token
unfolding read
refused key secret c now l = ground arith

refuses :
    (secret : Text) (c : JwtClaims) (raw : Text) (key : Bool → Result Text) (now : ℕ)
    → ok (packed secret c) ≡ ok raw
    → c.expires_at * second ≤ now
    → (e : Error) × (read (key true) now raw ≡ err e)
unfolding read
refuses secret c raw key now e l = elim (Result-cases (key true)) [
  | inr (d, g) ↦ (d, rw g refl)
  | inl (k, g) ↦ (err_invalid_token, rw (g, sym (ap text_of e)) (refused k secret c now l))
]

truncates : Truncates (λ t. t / second)
truncates t = (omega arith, omega arith)

-- Half a second past 1000, for ten minutes, and read about 500 seconds later.
abbrev token : Text
token =
    packed (codes "a secret") (record {
      email = codes "ann@shop.org";
      subject = 7 ∷ [];
      issued_at = 1000;
      expires_at = 1600;
    })

abbrev ann : User
ann = record (user 7) { email = codes "ann@shop.org" }

parse-generate_example :
    parse library one_character ten_minutes 1500000000000 token
    ≡ ok (record { user_id = 7; email = codes "ann@shop.org" })
unfolding generate
parse-generate_example =
    parse-generate library truncates reads one_character (λ i. refl) ten_minutes ann 1000500000000
      1500000000000 refl (omega arith) (omega arith)

parse-expired_example :
    parse library one_character ten_minutes 1600500000000 token ≡ err err_invalid_token
unfolding generate
parse-expired_example =
    parse-expired library truncates refuses one_character ten_minutes ann 1000500000000
      1600500000000 refl (omega arith)
