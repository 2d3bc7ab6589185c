-- ===== src/System/Storing.antt =====
-- An upload against the database and the disk (internal/upload/service.go, cmd/server/main.go).
use mathlib.Core.Path.{subst}
use order_mock_payment.Go.Exec.Hoare.{Post, Triple, Triple-on_error}
use order_mock_payment.Database.Triples.{Triple-get_context}
use order_mock_payment.Database.Table.Find.{find-holds}
use order_mock_payment.Prelude.{
  ℕ, suc, arith, ◌++◌, String, List, [], ◌≡◌, refl, ap, sym, ◌∙◌, true, false, none, ==_refl, some,
  ◌∷◌, ltb, ◌==◌,
}
use order_mock_payment.Go.Error.{Error, DriverError, driver, wrap}
use order_mock_payment.Go.Exec.{ok, err}
use order_mock_payment.Text.{Text}
use order_mock_payment.Numeric.{Numeric}
use order_mock_payment.Database.Table.{find}
use order_mock_payment.Database.World.{World, Tables, Environment, Executes, refused, ticked}
use order_mock_payment.Order.Model.{Order}
use order_mock_payment.Order.Service as OrderModule
use order_mock_payment.Order.Repository.{has_id, is_owned, exists}
use order_mock_payment.Order.Repository.Runs.{get_by_id-found, get_by_id-missing}
use order_mock_payment.Upload.Model.{Upload}
use order_mock_payment.Upload.Errors.{
  err_order_not_found, err_empty_file, err_file_too_large, err_unsupported_content_type,
}
use order_mock_payment.Upload.Repository.{upload_has_id, is_owned_upload}
use order_mock_payment.Upload.Repository as UploadRepository
use order_mock_payment.Outside.{File}
use order_mock_payment.Upload.Storage.{save, take}
use order_mock_payment.Upload.Storage.Whole.{with_new}
use order_mock_payment.Upload.Service.{MultipartFile, extension_of, head_size, store, create, get}
use order_mock_payment.System.Wiring.{upload_service}

-- An order that is found as a user's is found by its identifier.
owned-exists :
    {D : Type 0} (user_id order_id : ℕ) (os : List (Order D)) {o : Order D}
    → find (is_owned user_id order_id) os ≡ some o
    → exists (find (has_id order_id) os) ≡ true
unfolding find
owned-exists user_id order_id [] e = cc
owned-exists user_id order_id (x ∷ xs) {o} e =
    ground (arith, owned-exists user_id order_id xs {o = o})

module _ {D : Type 0} ⦃n : Numeric D⦄ (env : Environment) (w : World D) (user_id order_id : ℕ)
    (file : MultipartFile) (size : ℕ) where
  abbrev mime : String
  mime = env.outside.detect_content_type (take head_size file.content)

  abbrev name : Text → Text
  name ext = env.outside.new_name (suc w.statements) ++ (b'.' ∷ ext)

  -- Why an upload is refused, in the order of the tests.
  pub data Refusal : Error → Type 0 where
    hidden : find (is_owned user_id order_id) w.orders ≡ none → Refusal err_order_not_found
    empty :
        (o : Order D)
        → find (is_owned user_id order_id) w.orders ≡ some o
        → (size == 0) ≡ true
        → Refusal err_empty_file
    too_large :
        (o : Order D)
        → find (is_owned user_id order_id) w.orders ≡ some o
        → (size == 0) ≡ false
        → ltb env.outside.max_size size ≡ true
        → Refusal err_file_too_large
    unsupported :
        (o : Order D)
        → find (is_owned user_id order_id) w.orders ≡ some o
        → (size == 0) ≡ false
        → ltb env.outside.max_size size ≡ false
        → file.read_error ≡ none
        → extension_of mime ≡ none
        → Refusal err_unsupported_content_type

  module _ (x0 : Executes env w.statements) where
    -- Let the first statement of an upload be executed. If the caller has no such order, or else
    -- the size is 0, or else it is above the maximum, or else the file is read and its type is
    -- not an allowed one, then the upload fails with the error of the first of these reasons, and
    -- neither tables nor files change.
    pub create-refused :
        {e : Error}
        → Refusal e
        → create (upload_service env) user_id order_id file size w ≡ (err e, ticked w)
    unfolding create store OrderModule.get
    create-refused (hidden missing) = rw (get_by_id-missing env w x0 user_id order_id missing) refl
    create-refused (empty o owned h) = rw (get_by_id-found env w x0 user_id order_id owned, h) refl
    create-refused (too_large o owned h k) =
        rw (get_by_id-found env w x0 user_id order_id owned, h, k) refl
    create-refused (unsupported o owned h k r u) =
        rw (get_by_id-found env w x0 user_id order_id owned, h, k, r, u) refl

    module _ {o : Order D} (owned : find (is_owned user_id order_id) w.orders ≡ some o)
        (given : (size == 0) ≡ false) (small : ltb env.outside.max_size size ≡ false)
        (readable : file.read_error ≡ none) (seekable : file.seek_error ≡ none)
        {ext full path : Text} (known : extension_of mime ≡ some ext)
        (saved : save env file.content (name ext) (ticked w)
          ≡ (ok path, with_new env (ticked w) full file.content)) where
      abbrev described : Upload
      described = record {
        id = 0;
        order_id = order_id;
        filename = name ext;
        content_type = mime;
        size = size;
        path = path;
        created_at = 0;
      }

      abbrev saved_file : File
      saved_file = record { path = full; content = file.content }

      create-run :
          create (upload_service env) user_id order_id file size w
          ≡ UploadRepository.create env described (with_new env (ticked w) full file.content)
      unfolding create store OrderModule.get
      create-run =
          rw
            (
              get_by_id-found env w x0 user_id order_id owned,
              given,
              small,
              readable,
              known,
              seekable,
              saved,
            )
            refl

      -- Let an upload pass all tests and let Save store its file. If the database refuses the
      -- insertion, the upload fails with that error, no table changes, and the file stays on the
      -- disk.
      pub create-orphan :
          (e : DriverError)
          → env.outcome (suc w.statements) ≡ refused e
          → let (r, v) = create (upload_service env) user_id order_id file size w in
            (r ≡ err (wrap "insert upload" (driver e)))
            × (v.tables ≡ w.tables)
            × (v.files ≡ saved_file ∷ w.files)
      unfolding UploadRepository.create
      create-orphan e refusal = rw (create-run, refusal) (refl, refl, refl)

      abbrev stored : Upload
      stored = record described {
        id = env.new_id (suc w.statements);
        created_at = env.now (suc w.statements);
      }

      -- Let the order be the caller's, the size be positive and at most the maximum, the file be
      -- read and sought without an error, its detected type be an allowed one, Save have stored
      -- the file, the drawn identifier be fresh, and the statements be executed. Then the upload
      -- returns a row with the path, type and size, adds this row and the file and nothing else,
      -- and reading the upload back returns the row.
      pub create-get :
          Executes env (suc w.statements)
          → Executes env (suc (suc w.statements))
          → find (upload_has_id (env.new_id (suc w.statements))) w.uploads ≡ none
          → let (r, v) = create (upload_service env) user_id order_id file size w in
            (r ≡ ok stored)
            × (v.tables ≡ record w.tables { uploads = stored ∷ w.uploads })
            × (v.files ≡ saved_file ∷ w.files)
            × (get (upload_service env) user_id stored.id v ≡ (ok stored, ticked v))
      unfolding UploadRepository.create find get UploadRepository.get_by_id
      create-get x1 x2 fresh =
          rw (create-run, x1.runs, given, fresh, owned-exists user_id order_id w.orders owned)
            (refl, refl, refl, rw (x2.runs, ==_refl (env.new_id (suc w.statements)), owned) refl)

module _ {D : Type 0} ⦃n : Numeric D⦄ (env : Environment) (user_id upload_id : ℕ) where
  -- What is answered was found in the tables.
  get-Triple :
      (t : Tables D)
      → Triple
          (λ w. w.tables ≡ t)
          (get (upload_service env) user_id upload_id)
          (λ x w.
            (w.tables ≡ t) × (find (is_owned_upload user_id upload_id w.tables) w.uploads ≡ some x))
          (λ _ w. w.tables ≡ t)
  unfolding get UploadRepository.get_by_id
  get-Triple t = Triple-on_error _ (
      Triple-get_context (λ s. s ≡ t) env
        (λ s. find (is_owned_upload user_id upload_id s) s.uploads))

  owned-parts :
      (x : Upload) (t : Tables D)
      → is_owned_upload user_id upload_id t x ≡ true
      → (x.id ≡ upload_id) × (exists (find (is_owned user_id x.order_id) t.orders) ≡ true)
  owned-parts x t e = (ground arith, ground arith)

  -- An upload that is returned has the identifier that was asked for and belongs to an order of
  -- the caller, and reading it changes no table.
  pub get-own :
      (w v : World D) (x : Upload)
      → get (upload_service env) user_id upload_id w ≡ (ok x, v)
      → (x.id ≡ upload_id)
        × (exists (find (is_owned user_id x.order_id) w.orders) ≡ true)
        × (v.tables ≡ w.tables)
  get-own w v x e =
      let (same, found) = subst (Post _ _) e ((get-Triple w.tables).at w refl) in
      let (named, owned) =
        owned-parts x v.tables
          (find-holds (is_owned_upload user_id upload_id v.tables) v.uploads found) in
      (
        named,
        ap (λ (t : Tables D). exists (find (is_owned user_id x.order_id) t.orders)) (sym same)
            ∙ owned,
        same,
      )
