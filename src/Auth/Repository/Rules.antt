-- ===== src/Auth/Repository/Rules.antt =====
-- What the methods of the repository keep of the tables (internal/auth/repository.go).
use order_mock_payment.Prelude.{◌≡◌, inl, inr, Option-cases, none, ◌∷◌}
use order_mock_payment.Go.Exec.Hoare.{
  Post, Triple-bind, Triple-on_error, Triple-pure, Triple-weaken,
}
use order_mock_payment.Text.{Text, Unicode}
use order_mock_payment.Database.Table.{find}
use order_mock_payment.Database.World.{Tables, Environment}
use order_mock_payment.Database.Triples.{Triple-statement, Triple-get_context}
use order_mock_payment.Order.Repository.Rules.{Keeps}
use order_mock_payment.Auth.Model.{User}
use order_mock_payment.Auth.Repository.{
  has_email, user_has_id, insert_row, create_user_query, create, get_by_email,
}

module _ {D : Type 0} ⦃u : Unicode⦄ (P : Tables D → Type 0) (env : Environment) where
  insert_row-Post :
      (row : User) (t : Tables D)
      → P t
      → (find (user_has_id row.id) t.users ≡ none
          → find (has_email row.email) t.users ≡ none
          → P (record t { users = row ∷ t.users }))
      → Post (λ _. P) (λ _. P) (insert_row row t)
  unfolding insert_row
  insert_row-Post row t x y = elim (Option-cases (find (user_has_id row.id) t.users)) [
    | inr (o, d) ↦ rw d x
    | inl d ↦ elim (Option-cases (find (has_email row.email) t.users)) [
      | inr (o, e) ↦ rw (d, e) x
      | inl e ↦ rw (d, e) (y d e)
    ]
  ]

  -- A new account has a new identifier and a new email.
  pub create-Keeps :
      (x : User)
      → ((row : User) (t : Tables D)
          → P t
          → find (user_has_id row.id) t.users ≡ none
          → find (has_email row.email) t.users ≡ none
          → P (record t { users = row ∷ t.users }))
      → Keeps P (create env x)
  unfolding create create_user_query
  create-Keeps x h =
      Triple-bind
        (Triple-on_error _ (
          Triple-statement P (λ _. P) P env (create_user_query x) (λ _ y. y) (λ _ _ y. y)
            (λ id now t y.
              let row = record x { id = id; created_at = now; updated_at = now } in
              insert_row-Post row t y (h row t y))))
        λ row. Triple-weaken (Triple-pure _) (λ _ _ y. y.0) (λ _ _ y. y)

  pub get_by_email-Keeps : (email : Text) → Keeps P (get_by_email env email)
  unfolding get_by_email
  get_by_email-Keeps email =
      Triple-weaken (Triple-on_error _ (Triple-get_context P env _)) (λ _ _ x. x.0) (λ _ _ x. x)
