-- ===== src/Examples/Users.antt =====
-- The theorems on signup and login, at a small database.
use order_mock_payment.Prelude.{ℕ, ◌≡◌, inr, refl, sym, ap, some, [], ◌∷◌, if◌then◌else◌}
use order_mock_payment.Go.Exec.{Result, ok, err}
use order_mock_payment.Text.{Text, codes, text_eq, text_eq_iff, len}
use order_mock_payment.Text.Trim.{trim_space, trim_left, trim_right, is_space}
use order_mock_payment.Database.Table.{find}
use order_mock_payment.Database.World.{World, ticked}
use order_mock_payment.Auth.Model.{User}
use order_mock_payment.Auth.Errors.{err_invalid_credentials}
use order_mock_payment.Auth.Service.{
  Service, TokenIssuer, SignupRequest, LoginRequest, normalize_email, normalize_name,
  validate_password, signup, login,
}
use order_mock_payment.Auth.Service.Login.{login-authentic}
use order_mock_payment.Auth.Repository.{create, get_by_email}
use order_mock_payment.System.Users.{login-uniform, signup-login}
use order_mock_payment.System.Wiring.{auth_service}
use order_mock_payment.Examples.Data.{ascii, world, user, faultless, executes}

-- A hash that is the password behind its salt, and its comparison.
abbrev hash_with : ℕ → Text → Result Text
hash_with salt password = ok (salt ∷ password)

abbrev behind : Text → Text
behind [] = []
behind (c ∷ s) = s

abbrev compare : Text → Text → Result (Unit {0})
compare hash password =
    if text_eq (behind hash) password then ok tt else err err_invalid_credentials

abbrev issuer : TokenIssuer (World ℕ)
issuer = record { generate = λ x w. (ok (codes "token"), w) }

abbrev service : Service (World ℕ)
service = auth_service faultless hash_with compare issuer

abbrev ann : SignupRequest
ann = record { email = codes " Ann@Shop.org"; password = codes "correct horse"; name = codes "Ann" }

abbrev ann_again : LoginRequest
ann_again = record { email = codes "ANN@shop.org "; password = codes "correct horse" }

abbrev hash_of : Result Text → Text
hash_of (ok hash) = hash
hash_of (err e) = []

verifies :
    (salt : ℕ) (password hash : Text)
    → hash_with salt password ≡ ok hash
    → compare hash password ≡ ok tt
verifies salt password hash e =
    rw (sym (ap hash_of e)) (rw ((text_eq_iff password password).1 refl) refl)

-- The account that the signup stores.
abbrev account : User
account = record (user 100) {
  email = codes "ann@shop.org";
  password_hash = 0 ∷ codes "correct horse";
  name = codes "Ann";
}

signup-login_example :
    let (r, v) = signup some service ann world in
    (r ≡ ok account)
    × (login some service ann_again v ≡ (ok (account, codes "token"), record v { statements = 2 }))
unfolding signup normalize_email normalize_name validate_password trim_space is_space text_eq len
    find trim_right trim_left create
signup-login_example =
    signup-login faultless some hash_with compare issuer verifies ann world refl refl refl refl
      (executes 0) refl refl ann_again refl refl (executes 1) refl

-- The same database, with the account in it.
abbrev settled : World ℕ
settled = record world { tables = record world.tables { users = account ∷ world.users } }

abbrev guess : LoginRequest
guess = record ann_again { password = codes "wrong horse" }

login-uniform_example :
    login some service guess settled ≡ (err err_invalid_credentials, ticked settled)
unfolding normalize_email trim_space is_space text_eq find trim_right trim_left
login-uniform_example =
    login-uniform faultless some hash_with compare issuer guess settled refl refl (executes 0)
      (inr (account, err_invalid_credentials, refl, refl))

login-authentic_example :
    (email : Text) × (w0 : World ℕ) × (normalize_email some ann_again.email ≡ ok email)
    × (service.repo.get_by_email email settled ≡ (ok account, w0))
    × (service.hasher.compare ann_again.password account.password_hash ≡ ok tt)
    × (service.token_issuer.generate account w0 ≡ (ok (codes "token"), ticked settled))
unfolding login normalize_email trim_space is_space text_eq find get_by_email trim_right trim_left
login-authentic_example = login-authentic some service ann_again settled refl
