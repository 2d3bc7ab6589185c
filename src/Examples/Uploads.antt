-- ===== src/Examples/Uploads.antt =====
-- The theorems on uploads, at a small database and an empty disk.
use order_mock_payment.Prelude.{
  ℕ, ◌≡◌, ◌⊎◌, ◌↔◌, refl, List, if◌then◌else◌, true, false, none, some, [], ◌∷◌, ◌==◌,
}
use order_mock_payment.Go.Error.{Error, driver, wrap}
use order_mock_payment.Go.Exec.{ok, err}
use order_mock_payment.Text.{Text, codes, text_eq}
use order_mock_payment.Text.Path.{contains_separator, contains_dot_dot}
use order_mock_payment.Database.Table.{find, delete_where}
use order_mock_payment.Database.World.{World, Environment, executed, refused, ticked}
use order_mock_payment.Order.Repository.{is_owned, exists}
use order_mock_payment.Outside.{File}
use order_mock_payment.Upload.Model.{Upload}
use order_mock_payment.Upload.Errors.{err_file_too_large}
use order_mock_payment.Upload.Repository.{get_by_id}
use order_mock_payment.Upload.Service.{MultipartFile, create, get, extension_of}
use order_mock_payment.Upload.Storage.{
  is_safe_filename, is_below, has_path, save, base_path, full_path, relative_path,
}
use order_mock_payment.Upload.Storage.Files.{is_safe_filename_iff, save-beside}
use order_mock_payment.Upload.Storage.Whole.{with_new, save-whole}
use order_mock_payment.System.Wiring.{upload_service}
use order_mock_payment.System.Calls.{Call, create_upload, restart, run}
use order_mock_payment.System.Bounded.{Bounded, run-Bounded}
use order_mock_payment.System.Storing.{
  too_large, create-refused, create-orphan, create-get, get-own,
}
use order_mock_payment.Examples.Data.{
  whole, ascii, world, faultless, executes, closed, new_order, outside, sound_disk,
}

abbrev picture : MultipartFile
picture = record { content = codes "png"; read_error = none; seek_error = none }

abbrev path : Text
path = codes "2026/03/05/name.png"

abbrev full : Text
full = codes "/srv/uploads/2026/03/05/name.png"

is_safe_filename_iff_example : (is_safe_filename (codes "name.png") ≡ true) ↔ (
    (false ≡ false)
    × (contains_separator (codes "name.png") ≡ false)
    × (contains_dot_dot (codes "name.png") ≡ false))
is_safe_filename_iff_example = is_safe_filename_iff (codes "name.png")

save-beside_example :
    let (r, v) = save faultless (codes "png") (codes "name.png") world in
    find (has_path (codes "/srv/other")) v.files ≡ find (has_path (codes "/srv/other")) world.files
unfolding base_path is_below text_eq
save-beside_example =
    save-beside faultless (codes "png") (codes "name.png") world (codes "/srv/uploads")
      (codes "/srv/other") refl refl

-- A disk that fails to close a file.
abbrev unsound : Environment
unsound = record faultless {
  outside = record outside { disk = λ n. record sound_disk { close = some "no space" } };
}

save-whole_example :
    (save unsound (codes "png") (codes "name.png") world
      ≡ (ok path, with_new unsound world full (codes "png")))
    ⊎ ((e : Error) × (save unsound (codes "png") (codes "name.png") world ≡ (err e, world)))
unfolding base_path full_path find text_eq relative_path
save-whole_example =
    save-whole unsound world full refl (codes "png") (codes "name.png") (codes "/srv/uploads") refl
      refl refl

abbrev stored : Upload
stored = record {
  id = 101;
  order_id = 7;
  filename = codes "name.png";
  content_type = "image/png";
  size = 3;
  path = path;
  created_at = 1;
}

abbrev saved_file : File
saved_file = record { path = full; content = codes "png" }

create-get_example :
    let (r, v) = create (upload_service faultless) 1 7 picture 3 world in
    (r ≡ ok stored)
    × (v.tables ≡ record world.tables { uploads = stored ∷ [] })
    × (v.files ≡ saved_file ∷ [])
    × (get (upload_service faultless) 1 101 v ≡ (ok stored, ticked v))
unfolding find save extension_of delete_where
create-get_example =
    create-get faultless world 1 7 picture 3 (executes 0) {o = new_order} refl refl refl refl refl
      {full = full} refl refl (executes 1) (executes 2) refl

-- The statement behind the look-up of the order is refused.
abbrev second_refused : Environment
second_refused = record faultless { outcome = λ n. if n == 1 then refused closed else executed }

create-orphan_example :
    let (r, v) = create (upload_service second_refused) 1 7 picture 3 world in
    (r ≡ err (wrap "insert upload" (driver closed)))
    × (v.tables ≡ world.tables)
    × (v.files ≡ saved_file ∷ [])
unfolding find save extension_of delete_where
create-orphan_example =
    create-orphan second_refused world 1 7 picture 3 (record { runs = refl; counts = refl })
      {o = new_order} refl refl refl refl refl {full = full} refl refl closed refl

create-refused_example :
    create (upload_service faultless) 1 7 picture 101 world ≡ (err err_file_too_large, ticked world)
unfolding find
create-refused_example =
    create-refused faultless world 1 7 picture 101 (executes 0) (too_large new_order refl refl refl)

-- The database, once the picture is stored.
abbrev later : World ℕ
later = record world { tables = record world.tables { uploads = stored ∷ [] } }

get-own_example :
    (◌≡◌ {A = ℕ} 101 101)
    × (exists (find (is_owned 1 7) later.orders) ≡ true)
    × (later.tables ≡ later.tables)
unfolding find get get_by_id
get-own_example = get-own faultless 1 101 later (ticked later) stored refl

abbrev calls : List (Call ℕ)
calls = create_upload 1 7 picture 3 ∷ (create_upload 1 7 picture 101 ∷ (restart ∷ []))

run-Bounded_example : Bounded faultless (run faultless calls world).tables
run-Bounded_example = run-Bounded faultless calls world tt
