-- ===== src/Order/Repository/Stored.antt =====
-- The rules for inserting and replacing an order, whatever the environment answers.
use order_mock_payment.Prelude.{
  ℕ, ◌≡◌, refl, true, inl, inr, Bool-cases, Option-cases, Option, none, some, ◌∷◌, arith,
}
use order_mock_payment.Go.Exec.Hoare.{
  Post, Triple-bind, Triple-on_error, Triple-pure, Triple-weaken,
}
use order_mock_payment.Numeric.{Numeric}
use order_mock_payment.Database.Table.{find, update_where}
use order_mock_payment.Database.World.{Tables, Environment}
use order_mock_payment.Database.Triples.{Triple-statement}
use order_mock_payment.Order.Model.{Order}
use order_mock_payment.Order.Repository.{
  has_id, is_owned, has_user_id, exists, stored, insert_row, insert_stored, create_order_query,
  create, update_found, update_stored, update_order_query, update, passes_checks, revised,
}
use order_mock_payment.Order.Repository.Rules.{Keeps}

module _ {D : Type 0} ⦃n : Numeric D⦄ (P : Tables D → Type 0) where
  insert_row-Post :
      (row : Order D) (t : Tables D)
      → P t
      → (find (has_id row.id) t.orders ≡ none
          → (exists (find (has_user_id row.user_id) t.users) ≡ true)
          → P (record t { orders = row ∷ t.orders }))
      → Post (λ _. P) (λ _. P) (insert_row row t)
  unfolding insert_row
  insert_row-Post row t x y = elim (Bool-cases (passes_checks row)) [
    | inr e ↦ rw e x
    | inl e ↦ elim (Option-cases (find (has_id row.id) t.orders)) [
      | inr (o, d) ↦ rw (e, d) x
      | inl d ↦ elim (Bool-cases (exists (find (has_user_id row.user_id) t.users))) [
        | inr f ↦ rw (e, d, f) x
        | inl f ↦ rw (e, d, f) (y d f)
      ]
    ]
  ]

  insert_stored-Post :
      (r : Option (Order D)) (t : Tables D)
      → P t
      → ((row : Order D)
          → r ≡ some row
          → find (has_id row.id) t.orders ≡ none
          → (exists (find (has_user_id row.user_id) t.users) ≡ true)
          → P (record t { orders = row ∷ t.orders }))
      → Post (λ _. P) (λ _. P) (insert_stored r t)
  unfolding insert_stored
  insert_stored-Post none t x y = x
  insert_stored-Post (some row) t x y = insert_row-Post row t x (y row refl)

  stored_same :
      (o row : Order D)
      → stored o ≡ some row
      → (row.id ≡ o.id) × (row.user_id ≡ o.user_id) × (row.status ≡ o.status)
  stored_same o row e = ground arith

  -- A new row has a new identifier and an owner that exists, and the owner and the status that it was given.
  pub create-Keeps :
      (env : Environment) (o : Order D)
      → ((row : Order D) (t : Tables D)
          → P t
          → row.user_id ≡ o.user_id
          → row.status ≡ o.status
          → find (has_id row.id) t.orders ≡ none
          → (exists (find (has_user_id row.user_id) t.users) ≡ true)
          → P (record t { orders = row ∷ t.orders }))
      → Keeps P (create env o)
  unfolding create create_order_query
  create-Keeps env o h =
      Triple-bind
        (Triple-on_error _ (
          Triple-statement P (λ _. P) P env _ (λ _ x. x) (λ _ _ x. x)
            (λ id now t x.
              insert_stored-Post (stored (record o { id = id; created_at = now; updated_at = now }))
                t x (λ row e d f. let s = stored_same _ row e in h row t x s.1 s.2 d f))))
        λ row. Triple-weaken (Triple-pure _) (λ _ _ x. x.0) (λ _ _ x. x)

  update_stored-Post :
      (r : Option (Order D)) (t : Tables D)
      → P t
      → ((row : Order D)
          → r ≡ some row
          → P (record t {
            orders = update_where (is_owned row.user_id row.id) (λ _. row) t.orders;
          }))
      → Post (λ _. P) (λ _. P) (update_stored r t)
  unfolding update_stored
  update_stored-Post none t x y = x
  update_stored-Post (some row) t x y = elim (Bool-cases (passes_checks row)) [
    | inr e ↦ rw e x
    | inl e ↦ rw e (y row refl)
  ]

  update_found-Post :
      (f : Option (Order D)) (o : Order D) (now : ℕ) (t : Tables D)
      → P t
      → ((old row : Order D)
          → f ≡ some old
          → row.id ≡ old.id
          → row.user_id ≡ old.user_id
          → row.status ≡ old.status
          → P (record t {
            orders = update_where (is_owned row.user_id row.id) (λ _. row) t.orders;
          }))
      → Post (λ _. P) (λ _. P) (update_found f o now t)
  unfolding update_found
  update_found-Post none o now t x y = x
  update_found-Post (some old) o now t x y =
      update_stored-Post (stored (revised o now old)) t x
        λ row e. let s = stored_same _ row e in y old row refl s.0 s.1 s.2

  -- An update replaces the row that it finds, and keeps its identifier, owner and status.
  pub update-Keeps :
      (env : Environment) (o : Order D)
      → ((old row : Order D) (t : Tables D)
          → P t
          → find (is_owned o.user_id o.id) t.orders ≡ some old
          → row.id ≡ old.id
          → row.user_id ≡ old.user_id
          → row.status ≡ old.status
          → P (record t {
            orders = update_where (is_owned row.user_id row.id) (λ _. row) t.orders;
          }))
      → Keeps P (update env o)
  unfolding update update_order_query
  update-Keeps env o h =
      Triple-bind
        (Triple-on_error _ (
          Triple-statement P (λ _. P) P env _ (λ _ x. x) (λ _ _ x. x)
            (λ id now t x.
              update_found-Post _ o now t x (λ old row e i u s. h old row t x e i u s))))
        λ row. Triple-weaken (Triple-pure _) (λ _ _ x. x.0) (λ _ _ x. x)
