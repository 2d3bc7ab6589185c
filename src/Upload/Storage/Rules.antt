-- ===== src/Upload/Storage/Rules.antt =====
-- What saving a file keeps of the tables (internal/upload/storage.go).
use order_mock_payment.Prelude.{ℕ, String, not, Option, none, some, inl, inr, Bool-cases}
use order_mock_payment.Go.Exec.{Exec, ◌>>=◌}
use order_mock_payment.Go.Exec.Hoare.{Triple-guard, Triple-lifted}
use order_mock_payment.Text.{Text}
use order_mock_payment.Database.World.{World, Tables, Environment}
use order_mock_payment.Order.Repository.Rules.{Keeps}
use order_mock_payment.Outside.{DiskFaults}
use order_mock_payment.Upload.Errors.{err_invalid_storage_path}
use order_mock_payment.Upload.Storage.{
  is_safe_filename, relative_path, base_path, full_path, is_below, failed, filled, removed, saving,
  save,
}

module _ {D : Type 0} (P : Tables D → Type 0) where
  failed-Keeps :
      {A : Type 0} (context : String) (e : Option String) {f : Exec (World D) A}
      → Keeps P f
      → Keeps P (failed context e >>= λ _. f)
  failed-Keeps context none t = t
  failed-Keeps context (some m) t = record { at = λ w p. p }

  removed-tables :
      (d : DiskFaults) (path : Text) (w : World D) → P w.tables → P (removed d path w).tables
  removed-tables d path w p = elim (Bool-cases d.remove_fails) [ inl e ↦ rw e p | inr e ↦ rw e p ]

  filled-Keeps :
      (d : DiskFaults) (path content rel : Text) (copy close : Option String)
      → Keeps P (filled d path content rel copy close)
  filled-Keeps d path content rel (some m) closed = record { at = λ w p. removed-tables d path _ p }
  filled-Keeps d path content rel none (some m) = record { at = λ w p. removed-tables d path _ p }
  filled-Keeps d path content rel none none = record { at = λ w p. p }

  saving-Keeps :
      (env : Environment) (content filename : Text) (n : ℕ)
      → Keeps P (saving env content filename n)
  unfolding saving
  saving-Keeps env content filename n =
      Triple-guard (not (is_safe_filename filename)) err_invalid_storage_path (λ _ x. x)
        λ _.
          Triple-lifted (base_path env) (λ _ _ x. x)
            λ base _.
              Triple-lifted (full_path env base (relative_path (env.outside.today n) filename))
                (λ _ _ x. x)
                λ full _.
                  Triple-guard (not (is_below base full)) err_invalid_storage_path (λ _ x. x)
                    λ _. failed-Keeps "mkdir" (env.outside.disk n).mkdir (
                      failed-Keeps "create file" (env.outside.disk n).create (
                        filled-Keeps (env.outside.disk n) full content
                          (relative_path (env.outside.today n) filename) (env.outside.disk n).copy
                          (env.outside.disk n).close))

  pub save-Keeps :
      (env : Environment) (content filename : Text) → Keeps P (save env content filename)
  unfolding save
  save-Keeps env content filename = record {
    at = λ w p. (saving-Keeps env content filename w.statements).at w p;
  }
