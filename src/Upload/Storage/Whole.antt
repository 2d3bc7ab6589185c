-- ===== src/Upload/Storage/Whole.antt =====
-- Save stores the whole file or leaves nothing (internal/upload/storage.go).
use order_mock_payment.Prelude.{
  ◌≡◌, ◌⊎◌, inl, inr, refl, ap, ◌∙◌, false, none, ◌∷◌, Bool-cases, Option-cases,
}
use order_mock_payment.Go.Error.{Error, wrap, system}
use order_mock_payment.Go.Exec.{Result, ok, err}
use order_mock_payment.Text.{Text, text_eq_iff}
use order_mock_payment.Database.Table.{find, delete_where}
use order_mock_payment.Database.Table.Find.{delete_where-none}
use order_mock_payment.Database.World.{World, Environment}
use order_mock_payment.Outside.{DiskFaults}
use order_mock_payment.Upload.Storage.{
  is_safe_filename, relative_path, base_path, full_path, is_below, has_path, removed, put_file,
  filled, saving, save, take,
}

module _ {D : Type 0} (env : Environment) (w : World D) where
  abbrev day_path : Text → Text
  day_path filename = relative_path (env.outside.today w.statements) filename

  -- The state with one more file.
  abbrev pub with_new : Text → Text → World D
  with_new path content = record w { files = record { path = path; content = content } ∷ w.files }

  module _ (path : Text) (first : find (has_path path) w.files ≡ none) where
    put_file-new : (content : Text) → put_file path content w ≡ with_new path content
    put_file-new content =
        ap (λ fs. record w { files = record { path = path; content = content } ∷ fs })
          (delete_where-none (has_path path) w.files first)

    removed-put_file :
        (d : DiskFaults) (content : Text)
        → d.remove_fails ≡ false
        → removed d path (put_file path content w) ≡ w
    unfolding delete_where
    removed-put_file d content works =
        let none_there = delete_where-none (has_path path) w.files first in
        rw (put_file-new content, works, (text_eq_iff path path).1 refl)
          (ap (λ fs. record w { files = delete_where (has_path path) fs }) none_there
            ∙ ap (λ fs. record w { files = fs }) none_there)

    abbrev Whole : Text → Text → Result Text × World D → Type 0
    Whole content rel r = (r ≡ (ok rel, with_new path content)) ⊎ ((e : Error) × (r ≡ (err e, w)))

    filled-Whole :
        (d : DiskFaults) (content rel : Text)
        → d.remove_fails ≡ false
        → Whole content rel (filled d path content rel d.copy d.close w)
    filled-Whole d content rel works = elim (Option-cases d.copy) [
      | inr (m, e) ↦ rw e (
          inr (
            _,
            ap (λ v. (err (wrap "write file" (system m)), v))
                (removed-put_file d (take d.copied content) works),
          ))
      | inl e ↦ elim (Option-cases d.close) [
        | inr (m, f) ↦
            rw (e, f)
              (inr (
                _,
                ap (λ v. (err (wrap "close file" (system m)), v))
                    (removed-put_file d content works),
              ))
        | inl f ↦ rw (e, f) (inl (ap (λ v. (ok rel, v)) (put_file-new content)))
      ]
    ]

    -- Let no file stand at the path of an upload, let the base directory and this path be
    -- resolved, and let os.Remove work. Then Save either answers the relative path and adds the
    -- file with all its contents, or fails and leaves the state as it was, whatever the operating
    -- system answers to its other calls.
    pub save-whole :
        (content filename base : Text)
        → base_path env ≡ ok base
        → full_path env base (day_path filename) ≡ ok path
        → (env.outside.disk w.statements).remove_fails ≡ false
        → (save env content filename w ≡ (ok (day_path filename), with_new path content))
          ⊎ ((e : Error) × (save env content filename w ≡ (err e, w)))
    unfolding save saving
    save-whole content filename base based there works =
        let d = env.outside.disk w.statements in
        elim (Bool-cases (is_safe_filename filename)) [
          | inr a ↦ rw a (inr (_, refl))
          | inl a ↦ elim (Bool-cases (is_below base path)) [
            | inr b ↦ rw (a, based, there, b) (inr (_, refl))
            | inl b ↦ elim (Option-cases d.mkdir) [
              | inr (m, e) ↦ rw (a, based, there, b, e) (inr (_, refl))
              | inl e ↦ elim (Option-cases d.create) [
                | inr (m, f) ↦ rw (a, based, there, b, e, f) (inr (_, refl))
                | inl f ↦
                    rw (a, based, there, b, e, f)
                      (filled-Whole (record d { mkdir = none; create = none }) content
                        (day_path filename) works)
              ]
            ]
          ]
        ]
