-- ===== src/Middleware.antt =====
-- internal/middleware: the bearer token, the caller and the id of a request.
pub mod Bearer
use order_mock_payment.Prelude.{
  ℕ, String, ◌<>◌, not, ◌||◌, Option, none, some, ◌∷◌, [], ◌==◌, if◌then◌else◌,
}
use order_mock_payment.Go.Error.{Error, new}
use order_mock_payment.Go.Exec.{Result, ok, err}
use order_mock_payment.Text.{Text, Unicode, codes, equal_fold, is_empty}
use order_mock_payment.Text.Trim.{trim_space}
use order_mock_payment.Http.{
  Claims, Context, failure, Handler, code_unauthorized, code_invalid_request,
}

abbrev pub err_missing_header : Error
err_missing_header = new 50 "missing Authorization header"

abbrev pub err_invalid_scheme : Error
err_invalid_scheme = new 51 "invalid Authorization scheme"

abbrev prepend : ℕ → Option (Text × Text) → Option (Text × Text)
prepend c none = none
prepend c (some (a, b)) = some (c ∷ a, b)

-- What stands before and behind the first space; `none` if there is no space.
-- `strings.SplitN(header, " ", 2)`
unfoldable pub split_space : Text → Option (Text × Text)
split_space [] = none
split_space (c ∷ s) = let rest = split_space s in if c == 32 then some ([], s) else prepend c rest

module _ ⦃u : Unicode⦄ where
  abbrev bearer_of : Option (Text × Text) → Result Text
  bearer_of none = err err_invalid_scheme
  bearer_of (some (scheme, token)) =
      if not (equal_fold scheme (codes "Bearer")) || is_empty (trim_space token)
      then err err_invalid_scheme
      else ok (trim_space token)

  unfoldable pub extract_bearer : Text → Result Text
  unfolding split_space
  extract_bearer header =
      if is_empty header then err err_missing_header else bearer_of (split_space header)

abbrev pub unauthorized : {S B : Type 0} → Handler S B
unauthorized s = (failure 401 code_unauthorized "authentication required", s)

module _ {S B : Type 0} ⦃u : Unicode⦄ (parse : Text → Result Claims)
    (next : Context → Handler S B) where
  abbrev pub with_claims : Result Claims → Context → Handler S B
  with_claims (err e) c = unauthorized
  with_claims (ok claims) c = next (record c { claims = some claims })

  abbrev pub with_token : Result Text → Context → Handler S B
  with_token (err e) c = unauthorized
  with_token (ok token) c = with_claims (parse token) c

  -- `RequireAuth(parser, log)` in front of the handler `next`
  unfoldable pub require_auth : Context → Handler S B
  unfolding extract_bearer
  require_auth c = with_token (extract_bearer c.authorization) c

-- What `RequireAuth` has set, if it has.
abbrev pub get_claims : Context → Option Claims
get_claims c = c.claims

module _ {S B : Type 0} where
  abbrev pub with_user : Option Claims → (ℕ → Handler S B) → Handler S B
  with_user none k = unauthorized
  with_user (some claims) k = k claims.user_id

  -- `RequireUserID`, and the rest of the handler if there is a caller
  unfoldable pub require_user_id : Context → (ℕ → Handler S B) → Handler S B
  require_user_id c k = with_user (get_claims c) k

  abbrev pub with_id : Option ℕ → String → (ℕ → Handler S B) → Handler S B
  with_id none resource k s =
      (failure 400 code_invalid_request ("invalid " <> (resource <> " id")), s)
  with_id (some i) resource k s = k i s

  -- `ParseIDParam`, for a parser of UUIDs, and the rest of the handler if there is an id
  unfoldable pub parse_id_param :
      (Text → Option ℕ) → Context → String → (ℕ → Handler S B) → Handler S B
  parse_id_param parse_uuid c resource k = with_id (parse_uuid c.id) resource k
