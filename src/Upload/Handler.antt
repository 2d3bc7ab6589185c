-- ===== src/Upload/Handler.antt =====
-- internal/upload/handler.go and dto.go, over any upload service.
use order_mock_payment.Prelude.{ℕ, String, Option, none, some, if◌then◌else◌}
use order_mock_payment.Go.Error.{Error, is, error_text}
use order_mock_payment.Go.Exec.{Exec}
use order_mock_payment.Text.{Text}
use order_mock_payment.Http.{
  Context, success, failure, Handler, respond, code_invalid_request, code_internal_error,
}
use order_mock_payment.Middleware.{require_user_id, parse_id_param}
use order_mock_payment.Upload.Model.{Upload}
use order_mock_payment.Upload.Service.{MultipartFile}
use order_mock_payment.Upload.Errors.{
  err_order_not_found, err_empty_file, err_file_too_large, err_unsupported_content_type,
  err_upload_not_found,
}

-- The interface `UploadService`.
pub record UploadService (S : Type 0) : Type 0 where
  pub create : ℕ → ℕ → MultipartFile → ℕ → Exec S Upload
  pub get : ℕ → ℕ → Exec S Upload

pub record UploadResponse : Type 0 where
  pub id : ℕ
  pub order_id : ℕ
  pub filename : Text
  pub content_type : String
  pub size : ℕ
  pub path : Text
  pub created_at : ℕ

abbrev pub new_upload_response : Upload → UploadResponse
new_upload_response x = record {
  id = x.id;
  order_id = x.order_id;
  filename = x.filename;
  content_type = x.content_type;
  size = x.size;
  path = x.path;
  created_at = x.created_at;
}

abbrev pub code_invalid_multipart : String
code_invalid_multipart = "INVALID_MULTIPART"

abbrev pub code_missing_file : String
code_missing_file = "MISSING_FILE"

abbrev pub code_order_not_found : String
code_order_not_found = "ORDER_NOT_FOUND"

abbrev pub code_empty_file : String
code_empty_file = "EMPTY_FILE"

abbrev pub code_file_too_large : String
code_file_too_large = "FILE_TOO_LARGE"

abbrev pub code_unsupported_type : String
code_unsupported_type = "UNSUPPORTED_CONTENT_TYPE"

abbrev pub code_upload_not_found : String
code_upload_not_found = "UPLOAD_NOT_FOUND"

unfoldable pub map_domain_error : Error → ℕ × String × String
unfolding is error_text
map_domain_error e =
    if is e err_order_not_found
    then (404, code_order_not_found, error_text e)
    else if is e err_empty_file
    then (400, code_empty_file, error_text e)
    else if is e err_file_too_large
    then (413, code_file_too_large, error_text e)
    else if is e err_unsupported_content_type
    then (415, code_unsupported_type, error_text e)
    else if is e err_upload_not_found
    then (404, code_upload_not_found, error_text e)
    else (500, code_internal_error, "internal server error")

-- What `c.FormFile("file")` and then `Open` give.
pub data FormFile : Type 0 where
  missing_file : FormFile
  invalid_form : FormFile
  cannot_open : FormFile
  opened : MultipartFile → ℕ → FormFile

module _ {S : Type 0} where
  abbrev pub with_order : Option ℕ → (ℕ → Handler S UploadResponse) → Handler S UploadResponse
  with_order none k w = (failure 400 code_invalid_request "invalid or missing order_id", w)
  with_order (some order_id) k w = k order_id w

  abbrev pub with_file :
      FormFile → (MultipartFile → ℕ → Handler S UploadResponse) → Handler S UploadResponse
  with_file missing_file k w = (failure 400 code_missing_file "file field is required", w)
  with_file invalid_form k w = (failure 400 code_invalid_multipart "invalid multipart form", w)
  with_file cannot_open k w = (failure 500 code_internal_error "cannot open uploaded file", w)
  with_file (opened file size) k w = k file size w

-- `post_form` is `c.PostForm("order_id")`, and `form_file` the file of the form.
module _ {S : Type 0} (svc : UploadService S) (parse_uuid : Text → Option ℕ)
    (post_form : Context → Text) (form_file : Context → FormFile) where
  unfoldable pub create : Context → Handler S UploadResponse
  unfolding map_domain_error require_user_id
  create c = require_user_id c λ user_id. with_order (parse_uuid (post_form c)) λ order_id.
      with_file (form_file c) λ file size.
        respond (λ x. success 201 (new_upload_response x)) map_domain_error
          (svc.create user_id order_id file size)

  unfoldable pub get : Context → Handler S UploadResponse
  unfolding map_domain_error require_user_id parse_id_param
  get c = require_user_id c λ user_id. parse_id_param parse_uuid c "upload" λ upload_id.
      respond (λ x. success 200 (new_upload_response x)) map_domain_error
        (svc.get user_id upload_id)
