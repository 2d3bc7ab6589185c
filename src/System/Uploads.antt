-- ===== src/System/Uploads.antt =====
-- What the methods on uploads keep of the tables.
use order_mock_payment.Prelude.{ℕ, ◌≡◌, true, false, ltb, none, ◌∷◌, ◌==◌}
use order_mock_payment.Go.Error.{wrap}
use order_mock_payment.Go.Exec.Hoare.{
  Triple-bind, Triple-on_error, Triple-before, Triple-lift, Triple-lifted, Triple-guard,
}
use order_mock_payment.Text.{Unicode}
use order_mock_payment.Numeric.{Numeric}
use order_mock_payment.Database.Table.{find}
use order_mock_payment.Database.World.{Tables, Environment}
use order_mock_payment.Order.Service as OrderModule
use order_mock_payment.Order.Repository.{has_id, exists}
use order_mock_payment.Order.Repository.Rules.{Keeps}
use order_mock_payment.Order.Repository.Rules as OrderRules
use order_mock_payment.Upload.Errors.{err_empty_file, err_file_too_large}
use order_mock_payment.Upload.Model.{Upload}
use order_mock_payment.Upload.Repository.{upload_has_id}
use order_mock_payment.Upload.Repository.Rules as UploadRules
use order_mock_payment.Upload.Storage.{take}
use order_mock_payment.Upload.Storage.Rules.{save-Keeps}
use order_mock_payment.Upload.Service.{
  MultipartFile, or_if_order_missing, io_done, allowed, extension_of, head_size, filename_of,
  new_upload, drawn_name, store,
}
use order_mock_payment.Upload.Service as UploadModule
use order_mock_payment.System.Wiring.{upload_service}

module _ {D : Type 0} ⦃u : Unicode⦄ ⦃n : Numeric D⦄ (P : Tables D → Type 0)
    (env : Environment) where
  drawn-Keeps : Keeps P (drawn_name (upload_service env))
  drawn-Keeps = record { at = λ w x. x }

  store-Keeps :
      (order_id : ℕ) (file : MultipartFile) (size : ℕ)
      → ((row : Upload) (t : Tables D)
          → P t
          → row.order_id ≡ order_id
          → row.size ≡ size
          → (row.size == 0) ≡ false
          → find (upload_has_id row.id) t.uploads ≡ none
          → (exists (find (has_id row.order_id) t.orders) ≡ true)
          → P (record t { uploads = row ∷ t.uploads }))
      → Keeps P (store (upload_service env) order_id file size)
  unfolding store
  store-Keeps order_id file size h =
      let mime = env.outside.detect_content_type (take head_size file.content) in
      Triple-lift (io_done "read file" file.read_error) (λ _ _ x. x)
        (Triple-lifted (allowed (extension_of mime)) (λ _ _ x. x)
          λ ext _.
            Triple-lift (io_done "seek file" file.seek_error) (λ _ _ x. x)
              (Triple-bind drawn-Keeps λ name.
                Triple-bind
                  (Triple-on_error (wrap "save file")
                    (save-Keeps P env file.content (filename_of name ext)))
                  λ path.
                    UploadRules.create-Keeps P env
                      (new_upload order_id (filename_of name ext) mime size path) h))

  -- An upload is stored with the size that was checked.
  pub create_upload-Keeps :
      (user_id order_id : ℕ) (file : MultipartFile) (size : ℕ)
      → ((row : Upload) (t : Tables D)
          → P t
          → row.order_id ≡ order_id
          → (row.size == 0) ≡ false
          → ltb env.outside.max_size row.size ≡ false
          → find (upload_has_id row.id) t.uploads ≡ none
          → (exists (find (has_id row.order_id) t.orders) ≡ true)
          → P (record t { uploads = row ∷ t.uploads }))
      → Keeps P (UploadModule.create (upload_service env) user_id order_id file size)
  unfolding UploadModule.create OrderModule.get
  create_upload-Keeps user_id order_id file size h =
      Triple-bind
        (Triple-on_error or_if_order_missing (OrderRules.get_by_id-Keeps P env user_id order_id))
        λ o.
          Triple-before (λ _ x. x.0)
            (Triple-guard (size == 0) err_empty_file (λ _ x. x)
              λ _.
                Triple-guard (ltb env.outside.max_size size) err_file_too_large (λ _ x. x)
                  λ small.
                    store-Keeps order_id file size
                      λ row t x of_order same given. h row t x of_order given (rw same small))

  pub get_upload-Keeps :
      (user_id upload_id : ℕ) → Keeps P (UploadModule.get (upload_service env) user_id upload_id)
  unfolding UploadModule.get
  get_upload-Keeps user_id upload_id = UploadRules.get_by_id-Keeps P env user_id upload_id
