-- ===== src/Upload/Service.antt =====
-- internal/upload/service.go, over any repository, storage and order service.
use order_mock_payment.Prelude.{
  ℕ, String, Option, none, some, ◌∷◌, ◌++◌, ltb, ◌==◌, str_eq, if◌then◌else◌,
}
use order_mock_payment.Go.Error.{Error, wrap, system, is}
use order_mock_payment.Go.Exec.{Result, ok, err, Exec, fail_if, lift, on_error, ◌>>=◌, ◌>>◌}
use order_mock_payment.Text.{Text, codes}
use order_mock_payment.Order.Model.{Order}
use order_mock_payment.Order.Errors as OrderErrors
use order_mock_payment.Upload.Model.{Upload}
use order_mock_payment.Upload.Errors.{
  err_order_not_found, err_empty_file, err_file_too_large, err_unsupported_content_type,
}
use order_mock_payment.Upload.Storage.{Storage, take}

-- The interface `Repository` of repository.go.
pub record Repository (S : Type 0) : Type 0 where
  pub create : Upload → Exec S Upload
  pub get_by_id : ℕ → ℕ → Exec S Upload

-- The interface `OrderService`.
pub record OrderService (S D : Type 0) : Type 0 where
  pub get : ℕ → ℕ → Exec S (Order D)

-- The uploaded `multipart.File`: its bytes, and the errors that reading its head and seeking its
-- start meet, end of file apart.
pub record MultipartFile : Type 0 where
  pub content : Text
  pub read_error : Option String
  pub seek_error : Option String

-- `detect` is http.DetectContentType, and `new_name` is uuid.NewString in a state.
pub record Service (S D : Type 0) : Type 0 where
  pub repo : Repository S
  pub storage : Storage S
  pub orders : OrderService S D
  pub max_size : ℕ
  pub detect : Text → String
  pub new_name : S → Text

-- `allowedMIMEs`
unfoldable pub extension_of : String → Option Text
extension_of mime =
    if str_eq mime "application/pdf"
    then some (codes "pdf")
    else if str_eq mime "image/png"
    then some (codes "png")
    else if str_eq mime "image/jpeg"
    then some (codes "jpg")
    else none

abbrev pub head_size : ℕ
head_size = 512

abbrev pub or_if_order_missing : Error → Error
or_if_order_missing e = if is e OrderErrors.err_order_not_found then err_order_not_found else e

abbrev pub allowed : Option Text → Result Text
allowed none = err err_unsupported_content_type
allowed (some ext) = ok ext

abbrev pub io_done : String → Option String → Result (Unit {0})
io_done context none = ok tt
io_done context (some m) = err (wrap context (system m))

-- `uuid.NewString() + "." + ext`
abbrev pub filename_of : Text → Text → Text
filename_of name ext = name ++ (b'.' ∷ ext)

-- The `Upload` that Create fills in.
abbrev pub new_upload : ℕ → Text → String → ℕ → Text → Upload
new_upload order_id filename mime size path = record {
  id = 0;
  order_id = order_id;
  filename = filename;
  content_type = mime;
  size = size;
  path = path;
  created_at = 0;
}

module _ {S D : Type 0} (s : Service S D) where
  abbrev pub drawn_name : Exec S Text
  drawn_name w = (ok (s.new_name w), w)

  -- From the detected type on.
  unfoldable pub store : ℕ → MultipartFile → ℕ → Exec S Upload
  unfolding extension_of
  store order_id file size = do
    lift (io_done "read file" file.read_error)
    let mime = s.detect (take head_size file.content)
    ext ← lift (allowed (extension_of mime))
    lift (io_done "seek file" file.seek_error)
    name ← drawn_name
    path ← on_error (wrap "save file") (s.storage.save file.content (filename_of name ext))
    s.repo.create (new_upload order_id (filename_of name ext) mime size path)

  -- The size is not negative, so `size <= 0` is a test for 0.
  unfoldable pub create : ℕ → ℕ → MultipartFile → ℕ → Exec S Upload
  unfolding store is
  create user_id order_id file size = do
    on_error or_if_order_missing (s.orders.get user_id order_id) >>= λ _. do
      fail_if (size == 0) err_empty_file
      fail_if (ltb s.max_size size) err_file_too_large
      store order_id file size

  unfoldable pub get : ℕ → ℕ → Exec S Upload
  get user_id upload_id = s.repo.get_by_id user_id upload_id
