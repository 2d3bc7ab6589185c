-- ===== src/Upload/Storage.antt =====
-- internal/upload/storage.go: LocalStorage, on the files of the state.
pub mod Files
pub mod Whole
pub mod Rules
use order_mock_payment.Prelude.{
  ℕ, String, Bool, true, false, not, ◌||◌, Option, none, some, List, [], ◌∷◌, ◌++◌, zero, suc,
  if◌then◌else◌,
}
use order_mock_payment.Go.Error.{Error, wrap, system}
use order_mock_payment.Go.Exec.{Result, ok, err, Exec, pure, fail, fail_if, lift, ◌>>=◌, ◌>>◌}
use order_mock_payment.Text.{Text, text_eq, is_empty}
use order_mock_payment.Text.Decimal.{padded}
use order_mock_payment.Text.Path.{
  slash, join, abs, clean, has_prefix, contains_separator, contains_dot_dot,
}
use order_mock_payment.Database.Table.{delete_where}
use order_mock_payment.Database.World.{World, Environment}
use order_mock_payment.Outside.{Date, DiskFaults, File}
use order_mock_payment.Upload.Errors.{err_invalid_storage_path}

-- The interface `Storage`.
pub record Storage (S : Type 0) : Type 0 where
  pub save : Text → Text → Exec S Text

unfoldable pub is_safe_filename : Text → Bool
unfolding contains_separator contains_dot_dot clean text_eq
is_safe_filename name =
    if is_empty name
    then false
    else if contains_separator name
    then false
    else if contains_dot_dot name
    then false
    else if not (text_eq name (clean name))
    then false
    else true

-- The path below the base directory: year, month, day and the name.
unfoldable pub relative_path : Date → Text → Text
unfolding join padded
relative_path d filename =
    join (padded 4 d.year ∷ (padded 2 d.month ∷ (padded 2 d.day ∷ (filename ∷ []))))

abbrev pub has_path : Text → File → Bool
has_path path f = text_eq f.path path

abbrev pub take : ℕ → Text → Text
take zero s = []
take (suc k) [] = []
take (suc k) (c ∷ s) = c ∷ take k s

abbrev pub resolved : String → Option Text → Result Text
resolved context none = err (wrap context (system "getwd"))
resolved context (some path) = ok path

unfoldable pub base_path : Environment → Result Text
unfolding abs
base_path env = resolved "resolve base dir" (abs env.outside.working_dir env.outside.base_dir)

unfoldable pub full_path : Environment → Text → Text → Result Text
unfolding abs join
full_path env base_abs rel =
    resolved "resolve full path" (abs env.outside.working_dir (join (base_abs ∷ (rel ∷ []))))

unfoldable pub is_below : Text → Text → Bool
unfolding has_prefix
is_below base_abs full_abs = has_prefix full_abs (base_abs ++ (slash ∷ []))

module _ {D : Type 0} where
  abbrev pub failed : String → Option String → Exec (World D) (Unit {0})
  failed context none = pure tt
  failed context (some m) = fail (wrap context (system m))

  -- A file is made, or written over.
  abbrev pub put_file : Text → Text → World D → World D
  put_file path content w = record w {
    files = record { path = path; content = content } ∷ delete_where (has_path path) w.files;
  }

  -- `_ = os.Remove(path)`
  abbrev pub removed : DiskFaults → Text → World D → World D
  removed d path w =
      if d.remove_fails then w else record w { files = delete_where (has_path path) w.files }

  -- The end of Save, once the file is open: io.Copy, Close, and what their errors lead to.
  abbrev pub filled :
      DiskFaults → Text → Text → Text → Option String → Option String → Exec (World D) Text
  filled d path content rel (some m) closed w =
      (err (wrap "write file" (system m)), removed d path (put_file path (take d.copied content) w))
  filled d path content rel none (some m) w =
      (err (wrap "close file" (system m)), removed d path (put_file path content w))
  filled d path content rel none none w = (ok rel, put_file path content w)

  -- Save, where `n` numbers the answers of the operating system.
  unfoldable pub saving : Environment → Text → Text → ℕ → Exec (World D) Text
  unfolding is_safe_filename relative_path base_path full_path is_below
  saving env content filename n = do
    fail_if (not (is_safe_filename filename)) err_invalid_storage_path
    let rel = relative_path (env.outside.today n) filename
    base_abs ← lift (base_path env)
    full_abs ← lift (full_path env base_abs rel)
    fail_if (not (is_below base_abs full_abs)) err_invalid_storage_path
    failed "mkdir" (env.outside.disk n).mkdir
    failed "create file" (env.outside.disk n).create
    filled (env.outside.disk n) full_abs content rel (env.outside.disk n).copy
        (env.outside.disk n).close

  -- Writes `content` to a file of this name, and answers its relative path. Directories are made as
  -- they are needed, and are no part of the state.
  unfoldable pub save : Environment → Text → Text → Exec (World D) Text
  unfolding saving
  save env content filename w = saving env content filename w.statements w

-- `NewLocalStorage(baseDir)`
abbrev pub local_storage : {D : Type 0} → Environment → Storage (World D)
local_storage env = record { save = save env }
