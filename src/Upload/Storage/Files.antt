-- ===== src/Upload/Storage/Files.antt =====
-- The names that Save accepts, and the files that it changes (internal/upload/storage.go).
use order_mock_payment.Prelude.{
  ℕ, String, ◌≡◌, ◌↔◌, inl, inr, refl, sym, ap, ◌∙◌, true, false, not, Option, none, some, [],
  arith, Bool-cases,
}
use order_mock_payment.Go.Exec.{Result, ok, err, Exec, ◌>>=◌}
use order_mock_payment.Go.Exec.Hoare.{post_state, Triple, Triple-guard, Triple-lifted}
use order_mock_payment.Text.{Text, text_eq, text_eq_iff, is_empty}
use order_mock_payment.Text.Path.{contains_separator, contains_dot_dot}
use order_mock_payment.Text.Path.Clean.{clean-name}
use order_mock_payment.Database.Table.{find}
use order_mock_payment.Database.Table.Find.{find-delete_where_disjoint}
use order_mock_payment.Database.World.{World, Environment}
use order_mock_payment.Outside.{DiskFaults, File}
use order_mock_payment.Upload.Errors.{err_invalid_storage_path}
use order_mock_payment.Upload.Storage.{
  is_safe_filename, relative_path, base_path, full_path, is_below, has_path, failed, filled,
  removed, put_file, saving, save, take,
}

-- A name is accepted exactly if it is not empty and contains no separator and no "..": the
-- comparison with the cleaned name refuses no other.
pub is_safe_filename_iff :
    (name : Text)
    → (is_safe_filename name ≡ true) ↔ (
        (is_empty name ≡ false)
        × (contains_separator name ≡ false)
        × (contains_dot_dot name ≡ false))
unfolding is_safe_filename
is_safe_filename_iff name = elim (Bool-cases (is_empty name)) [
  | inl e ↦ rw e (λ x. cc, λ x. cc)
  | inr e ↦ elim (Bool-cases (contains_separator name)) [
    | inl d ↦ rw (e, d) (λ x. cc, λ x. cc)
    | inr d ↦ elim (Bool-cases (contains_dot_dot name)) [
      | inl f ↦ rw (e, d, f) (λ x. cc, λ x. cc)
      | inr f ↦
          rw (e, d, f, clean-name name e d f, (text_eq_iff name name).1 refl)
            (λ _. (refl, refl, refl), λ _. refl)
    ]
  ]
]

module _ (path other : Text) (ne : text_eq path other ≡ false) where
  disjoint : (f : File) → has_path path f ≡ true → has_path other f ≡ false
  disjoint f h = ap (λ k. text_eq k other) ((text_eq_iff f.path path).0 h) ∙ ne

module _ {D : Type 0} (path other : Text) (ne : text_eq path other ≡ false) where
  find-put_file :
      (content : Text) (w : World D)
      → find (has_path other) (put_file path content w).files ≡ find (has_path other) w.files
  unfolding find
  find-put_file content w =
      rw ne (
        find-delete_where_disjoint (has_path path) (has_path other) w.files
          (disjoint path other ne))

  find-removed :
      (d : DiskFaults) (w : World D)
      → find (has_path other) (removed d path w).files ≡ find (has_path other) w.files
  find-removed d w = elim (Bool-cases d.remove_fails) [
    | inl e ↦ rw e refl
    | inr e ↦ rw e (
        find-delete_where_disjoint (has_path path) (has_path other) w.files
          (disjoint path other ne))
  ]

  -- The file at `other` is as it was.
  abbrev Same : Option File → World D → Type 0
  Same o w = find (has_path other) w.files ≡ o

  filled-Same :
      (o : Option File) (d : DiskFaults) (content rel : Text) (copy close : Option String)
      → Triple (Same o) (filled d path content rel copy close) (λ _. Same o) (λ _. Same o)
  filled-Same o d content rel (some m) closed = record {
    at = λ w x.
        find-removed d (put_file path (take d.copied content) w)
        ∙ find-put_file (take d.copied content) w
        ∙ x;
  }
  filled-Same o d content rel none (some m) = record {
    at = λ w x. find-removed d (put_file path content w) ∙ find-put_file content w ∙ x;
  }
  filled-Same o d content rel none none = record { at = λ w x. find-put_file content w ∙ x }

differs :
    (base path other : Text)
    → not (is_below base path) ≡ false
    → is_below base other ≡ false
    → text_eq path other ≡ false
differs base path other below beside = elim (Bool-cases (text_eq path other)) [
  | inr e ↦ e
  | inl e ↦ let same = ap (is_below base) ((text_eq_iff path other).0 e) in ground arith
]

abbrev text_of : Result Text → Text
text_of (ok s) = s
text_of (err e) = []

same_base : {a b : Text} → ok a ≡ ok b → a ≡ b
same_base {a} {b} e = ap (λ (r : Result Text). text_of r) e

failed-same :
    {D A : Type 0} {P : World D → Type 0} (context : String) (e : Option String)
    {f : Exec (World D) A}
    → Triple P f (λ _. P) (λ _. P)
    → Triple P (failed context e >>= λ _. f) (λ _. P) (λ _. P)
failed-same context none t = t
failed-same context (some m) t = record { at = λ w p. p }

module _ {D : Type 0} (env : Environment) where
  saving-same :
      (content filename : Text) (n : ℕ) (o : Option File) (base other : Text)
      → base_path env ≡ ok base
      → is_below base other ≡ false
      → Triple {S = World D}
          (λ w. find (has_path other) w.files ≡ o)
          (saving env content filename n)
          (λ _ w. find (has_path other) w.files ≡ o)
          (λ _ w. find (has_path other) w.files ≡ o)
  unfolding saving
  saving-same content filename n o base other based beside =
      Triple-guard (not (is_safe_filename filename)) err_invalid_storage_path (λ _ x. x)
        λ _.
          Triple-lifted (base_path env) (λ _ _ x. x)
            λ b eb.
              Triple-lifted (full_path env b (relative_path (env.outside.today n) filename))
                (λ _ _ x. x)
                λ full _.
                  Triple-guard (not (is_below b full)) err_invalid_storage_path (λ _ x. x)
                    λ below.
                      let beside_b =
                        ap (λ k. is_below k other) (same_base (sym eb ∙ based)) ∙ beside in
                      failed-same "mkdir" (env.outside.disk n).mkdir (
                        failed-same "create file" (env.outside.disk n).create (
                          filled-Same full other (differs b full other below beside_b) o
                            (env.outside.disk n) content
                            (relative_path (env.outside.today n) filename) (env.outside.disk n).copy
                            (env.outside.disk n).close))

  -- Save changes no file outside the base directory, whatever the name of the upload, its
  -- contents and the answers of the operating system are, and whether it succeeds or fails; the
  -- base directory is one that can be resolved.
  pub save-beside :
      (content filename : Text) (w : World D) (base other : Text)
      → base_path env ≡ ok base
      → is_below base other ≡ false
      → let (r, v) = save env content filename w in
        find (has_path other) v.files ≡ find (has_path other) w.files
  unfolding save
  save-beside content filename w base other based beside =
      post_state (λ v. find (has_path other) v.files ≡ find (has_path other) w.files) _
        ((saving-same content filename w.statements (find (has_path other) w.files) base other based
            beside).at
          w refl)
