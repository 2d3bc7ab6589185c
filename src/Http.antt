-- ===== src/Http.antt =====
-- internal/httpresp and the parts of a gin.Context that the handlers read.
use order_mock_payment.Prelude.{ℕ, String, Bool, not, Option, none, some, if◌then◌else◌}
use order_mock_payment.Go.Error.{Error}
use order_mock_payment.Go.Exec.{Result, ok, err, Exec}
use order_mock_payment.Text.{Text, Unicode, codes, equal_fold}

abbrev pub code_invalid_request : String
code_invalid_request = "INVALID_REQUEST"

abbrev pub code_invalid_content_type : String
code_invalid_content_type = "INVALID_CONTENT_TYPE"

abbrev pub code_internal_error : String
code_internal_error = "INTERNAL_ERROR"

abbrev pub code_unauthorized : String
code_unauthorized = "UNAUTHORIZED"

-- The claims of a verified token (internal/auth/jwt.go).
pub record Claims : Type 0 where
  pub user_id : ℕ
  pub email : Text

-- A request as a handler sees it; `claims` is what the middleware has set, and `unreadable` says that
-- reading the body ends with an error.
pub record Context : Type 0 where
  pub claims : Option Claims
  pub content_type : Text
  pub authorization : Text
  pub signature : Text
  pub id : Text
  pub body : Text
  pub unreadable : Bool

-- The response: `Success`, `Error`, or a status with no body. `B` is the data of a success.
pub data Response (B : Type 0) : Type 0 where
  success : ℕ → B → Response B
  failure : ℕ → String → String → Response B
  no_body : ℕ → Response B

-- A handler may change the state, and answers.
abbrev pub Handler : Type 0 → Type 0 → Type 0
Handler S B = S → Response B × S

abbrev pub error_response : {B : Type 0} → ℕ × String × String → Response B
error_response (status, code, message) = failure status code message

module _ {S A B : Type 0} where
  abbrev pub answered :
      (A → Response B) → (Error → ℕ × String × String) → Result A × S → Response B × S
  answered f g (ok a, s) = (f a, s)
  answered f g (err e, s) = (error_response (g e), s)

  -- The end of a handler: call the service, and map its error.
  abbrev pub respond : (A → Response B) → (Error → ℕ × String × String) → Exec S A → Handler S B
  respond f g m s = answered f g (m s)

unfoldable pub is_json_content_type : ⦃u : Unicode⦄ → Context → Bool
is_json_content_type c = equal_fold c.content_type (codes "application/json")

-- The rest of a handler once `ShouldBindJSON` has read the body, or has failed.
abbrev pub bound : {S B R : Type 0} → Option R → (R → Handler S B) → Handler S B
bound none k s = (failure 400 code_invalid_request "malformed request body", s)
bound (some req) k s = k req s

-- `ShouldBindJSON`, which reads the body and decodes it.
abbrev pub read_json : {R : Type 0} → (Text → Option R) → Context → Option R
read_json bind c = if c.unreadable then none else bind c.body

-- `IsJSONContentType` and `ShouldBindJSON`, as every handler with a body calls them.
abbrev pub with_json :
    {S B R : Type 0} ⦃u : Unicode⦄ → (Text → Option R) → Context → (R → Handler S B) → Handler S B
with_json bind c k =
    if not (is_json_content_type c)
    then (λ s. (failure 415 code_invalid_content_type "Content-Type must be application/json", s))
    else bound (read_json bind c) k
