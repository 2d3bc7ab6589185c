-- ===== src/Upload/Repository/Rules.antt =====
-- What the methods of the repository keep of the tables (internal/upload/repository.go).
use order_mock_payment.Prelude.{
  ℕ, ◌≡◌, refl, true, false, inl, inr, Bool-cases, Option-cases, none, ◌∷◌, ◌==◌,
}
use order_mock_payment.Go.Exec.Hoare.{
  Post, Triple-bind, Triple-on_error, Triple-pure, Triple-weaken,
}
use order_mock_payment.Database.Table.{find}
use order_mock_payment.Database.World.{Tables, Environment}
use order_mock_payment.Database.Triples.{Triple-statement, Triple-get_context}
use order_mock_payment.Order.Repository.{has_id, exists}
use order_mock_payment.Order.Repository.Rules.{Keeps}
use order_mock_payment.Upload.Model.{Upload}
use order_mock_payment.Upload.Repository.{
  upload_has_id, insert_row, create_upload_query, create, get_by_id,
}

module _ {D : Type 0} (P : Tables D → Type 0) (env : Environment) where
  insert_row-Post :
      (row : Upload) (t : Tables D)
      → P t
      → ((row.size == 0) ≡ false
          → find (upload_has_id row.id) t.uploads ≡ none
          → (exists (find (has_id row.order_id) t.orders) ≡ true)
          → P (record t { uploads = row ∷ t.uploads }))
      → Post (λ _. P) (λ _. P) (insert_row row t)
  unfolding insert_row
  insert_row-Post row t x y = elim (Bool-cases (row.size == 0)) [
    | inl e ↦ rw e x
    | inr e ↦ elim (Option-cases (find (upload_has_id row.id) t.uploads)) [
      | inr (o, d) ↦ rw (e, d) x
      | inl d ↦ elim (Bool-cases (exists (find (has_id row.order_id) t.orders))) [
        | inr f ↦ rw (e, d, f) x
        | inl f ↦ rw (e, d, f) (y e d f)
      ]
    ]
  ]

  -- A new row has a new identifier and an order, and the order and the size that it was given.
  pub create-Keeps :
      (u : Upload)
      → ((row : Upload) (t : Tables D)
          → P t
          → row.order_id ≡ u.order_id
          → row.size ≡ u.size
          → (row.size == 0) ≡ false
          → find (upload_has_id row.id) t.uploads ≡ none
          → (exists (find (has_id row.order_id) t.orders) ≡ true)
          → P (record t { uploads = row ∷ t.uploads }))
      → Keeps P (create env u)
  unfolding create create_upload_query
  create-Keeps u h =
      Triple-bind
        (Triple-on_error _ (
          Triple-statement P (λ _. P) P env (create_upload_query u) (λ _ x. x) (λ _ _ x. x)
            (λ id now t x.
              insert_row-Post (record u { id = id; created_at = now }) t x
                (h (record u { id = id; created_at = now }) t x refl refl))))
        λ row. Triple-weaken (Triple-pure _) (λ _ _ x. x.0) (λ _ _ x. x)

  pub get_by_id-Keeps : (user_id upload_id : ℕ) → Keeps P (get_by_id env user_id upload_id)
  unfolding get_by_id
  get_by_id-Keeps user_id upload_id =
      Triple-weaken (Triple-on_error _ (Triple-get_context P env _)) (λ _ _ x. x.0) (λ _ _ x. x)
