-- ===== src/Server/Effects.antt =====
-- What a handler does to the state: nothing, or what one call of a service does to it.
use mathlib.Core.Option.{some-injective}
use order_mock_payment.Prelude.{
  ℕ, String, ◌≡◌, ◌≢◌, ◌⊎◌, inl, inr, ap, refl, sym, ◌∙◌, Bool, true, false, Option, none, some,
  Bool-cases, if◌then◌else◌,
}
use order_mock_payment.Go.Error.{Error}
use order_mock_payment.Go.Exec.{Result, ok, err, Exec, lift, fail_if, pure, continue, ◌>>=◌}
use order_mock_payment.Text.{Text, Unicode}
use order_mock_payment.Numeric.{Numeric}
use order_mock_payment.Database.World.{World, Environment}
use order_mock_payment.Http.{
  Claims, Context, Response, Handler, answered, respond, with_json, bound, read_json,
  is_json_content_type,
}
use order_mock_payment.Middleware.{with_id, with_claims, with_token, require_auth, extract_bearer}
use order_mock_payment.Upload.Handler.{
  FormFile, missing_file, invalid_form, cannot_open, opened, with_order, with_file, UploadResponse,
}
use order_mock_payment.Upload.Service.{MultipartFile}
use order_mock_payment.System.Calls.{Call, provider_callback, restart, step}
use order_mock_payment.System.Isolation.{caller}
use order_mock_payment.Server.{Inputs}
use order_mock_payment.Webhook.Service.{verify}
use order_mock_payment.Server.Routes.{parse_token, auth_mw}

answered-state :
    {S A B : Type 0} (f : A → Response B) (g : Error → ℕ × String × String) (r : Result A × S)
    → (answered f g r).1 ≡ r.1
answered-state f g (ok a, s) = refl
answered-state f g (err e, s) = refl

-- The claims of the bearer token of a request.
abbrev pub token_claims : (Text → Result Claims) → Result Text → Result Claims
token_claims parse (err e) = err e
token_claims parse (ok token) = parse token

module _ {D : Type 0} ⦃u : Unicode⦄ ⦃n : Numeric D⦄ (env : Environment) where
  -- Who a request is from.
  abbrev pub authenticated : Context → World D → Result Claims
  authenticated c w = token_claims (parse_token env w) (extract_bearer c.authorization)

  -- The call is made for the user of the token, if it is made for a user.
  abbrev pub MadeBy : Result Claims → Call D → Type 0
  MadeBy r k =
      (user : ℕ)
      → caller k ≡ some user
      → (claims : Claims) × (r ≡ ok claims) × (claims.user_id ≡ user)

  -- Nor is it a callback of the provider, unless the request is signed.
  abbrev pub Signed : Inputs D → Context → Call D → Type 0
  Signed inputs c k =
      (reference : Text) (status : String)
      → k ≡ provider_callback reference status
      → verify inputs.mac inputs.webhook_secret c.body c.signature ≡ ok tt

  -- From `w` to `v` by no call, or by one that `P` admits.
  abbrev pub Effect : (Call D → Type 0) → World D → World D → Type 0
  Effect P w v = (v ≡ w) ⊎ ((k : Call D) × P k × (v ≡ step env k w))

module _ {D : Type 0} ⦃u : Unicode⦄ ⦃n : Numeric D⦄ (env : Environment) (P : Call D → Type 0)
    (w : World D) where
  pub respond-Effect :
      {A B : Type 0} (f : A → Response B) (g : Error → ℕ × String × String) (m : Exec (World D) A)
      (k : Call D)
      → P k
      → (m w).1 ≡ step env k w
      → Effect env P w (respond f g m w).1
  respond-Effect f g m k p e = inr (k, p, answered-state f g (m w) ∙ e)

  pub exec-Effect :
      {A B : Type 0} (f : A → Response B) (g : Error → ℕ × String × String) (m : Exec (World D) A)
      → Effect env P w (m w).1
      → Effect env P w (respond f g m w).1
  exec-Effect f g m (inl e) = inl (answered-state f g (m w) ∙ e)
  exec-Effect f g m (inr (k, p, e)) = inr (k, p, answered-state f g (m w) ∙ e)

  pub lift-Effect :
      {A : Type 0} (r : Result (Unit {0})) (f : Exec (World D) A)
      → (r ≡ ok tt → Effect env P w (f w).1)
      → Effect env P w ((lift r >>= λ _. f) w).1
  lift-Effect (ok a) f h = h refl
  lift-Effect (err e) f h = inl refl

  pub guard-Effect :
      {A : Type 0} (b : Bool) (e : Error) (f : Exec (World D) A)
      → Effect env P w (f w).1
      → Effect env P w ((fail_if b e >>= λ _. f) w).1
  guard-Effect true e f h = inl refl
  guard-Effect false e f h = h

  pub discard-Effect :
      {A : Type 0} (r : Result A × World D)
      → Effect env P w r.1
      → Effect env P w (continue r.0 (λ _. pure tt) r.1).1
  discard-Effect (ok a, v) h = h
  discard-Effect (err e, v) h = h

  bound-Effect :
      {R B : Type 0} (o : Option R) (k : R → Handler (World D) B)
      → ((req : R) → Effect env P w (k req w).1)
      → Effect env P w (bound o k w).1
  bound-Effect none k h = inl refl
  bound-Effect (some req) k h = h req

  pub json-Effect :
      {R B : Type 0} (bind : Text → Option R) (c : Context) (k : R → Handler (World D) B)
      → ((req : R) → Effect env P w (k req w).1)
      → Effect env P w (with_json bind c k w).1
  json-Effect bind c k h = elim (Bool-cases (is_json_content_type c)) [
    | inl e ↦ rw e (bound-Effect (read_json bind c) k h)
    | inr e ↦ rw e (inl refl)
  ]

  pub id-Effect :
      {B : Type 0} (o : Option ℕ) (resource : String) (k : ℕ → Handler (World D) B)
      → ((i : ℕ) → Effect env P w (k i w).1)
      → Effect env P w (with_id o resource k w).1
  id-Effect none resource k h = inl refl
  id-Effect (some i) resource k h = h i

  pub if-Effect :
      {B : Type 0} (b : Bool) (h k : Handler (World D) B)
      → (h w).1 ≡ w
      → Effect env P w (k w).1
      → Effect env P w ((if b then h else k) w).1
  if-Effect true h k e f = inl e
  if-Effect false h k e f = f

  pub order-Effect :
      (o : Option ℕ) (k : ℕ → Handler (World D) UploadResponse)
      → ((i : ℕ) → Effect env P w (k i w).1)
      → Effect env P w (with_order o k w).1
  order-Effect none k h = inl refl
  order-Effect (some i) k h = h i

  pub file-Effect :
      (f : FormFile) (k : MultipartFile → ℕ → Handler (World D) UploadResponse)
      → ((file : MultipartFile) (size : ℕ) → Effect env P w (k file size w).1)
      → Effect env P w (with_file f k w).1
  file-Effect missing_file k h = inl refl
  file-Effect invalid_form k h = inl refl
  file-Effect cannot_open k h = inl refl
  file-Effect (opened file size) k h = h file size

module _ {D : Type 0} ⦃u : Unicode⦄ ⦃n : Numeric D⦄ (env : Environment) (c : Context) (w : World D)
    {B : Type 0} (next : Context → Handler (World D) B) where
  claims-Effect :
      (P : Call D → Type 0) (r : Result Claims)
      → ((claims : Claims)
          → r ≡ ok claims
          → Effect env P w (next (record c { claims = some claims }) w).1)
      → Effect env P w (with_claims (parse_token env w) next r c w).1
  claims-Effect P (err e) h = inl refl
  claims-Effect P (ok claims) h = h claims refl

  token-Effect :
      (P : Call D → Type 0) (t : Result Text)
      → ((claims : Claims)
          → token_claims (parse_token env w) t ≡ ok claims
          → Effect env P w (next (record c { claims = some claims }) w).1)
      → Effect env P w (with_token (parse_token env w) next t c w).1
  token-Effect P (err e) h = inl refl
  token-Effect P (ok token) h = claims-Effect P (parse_token env w token) h

  -- Behind `RequireAuth` a handler runs with the claims of the token, or not at all.
  pub auth-Effect :
      (P : Call D → Type 0)
      → ((claims : Claims)
          → authenticated env c w ≡ ok claims
          → Effect env P w (next (record c { claims = some claims }) w).1)
      → Effect env P w (auth_mw env next c w).1
  unfolding require_auth
  auth-Effect P h = token-Effect P (extract_bearer c.authorization) h

-- A call for a user is no other call.
from_user :
    {D : Type 0} (k : Call D) (user : ℕ) (other : Call D)
    → caller k ≡ some user
    → k ≡ other
    → caller other ≢ none
from_user k user other own called none_else = let same = ap caller called in cc

module _ {D : Type 0} ⦃u : Unicode⦄ ⦃n : Numeric D⦄ (env : Environment) (inputs : Inputs D)
    (c : Context) (w : World D) where
  abbrev pub Mine : Call D → Type 0
  Mine k = MadeBy env (authenticated env c w) k × Signed env inputs c k × (k ≢ restart)

  abbrev pub Refines : World D → Type 0
  Refines v = Effect env Mine w v

  -- The request behind `RequireAuth`.
  abbrev pub signed : Claims → Context
  signed claims = record c { claims = some claims }

  -- A call for the user of the token.
  pub mine :
      (claims : Claims)
      → authenticated env c w ≡ ok claims
      → (k : Call D) → caller k ≡ some claims.user_id
      → Mine k
  mine claims e k own = (
    λ user called. (claims, e, some-injective claims.user_id user (sym own ∙ called)),
    λ reference status called.
        absurd (from_user k claims.user_id (provider_callback reference status) own called refl),
    λ called. from_user k claims.user_id restart own called refl,
  )
