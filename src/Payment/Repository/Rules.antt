-- ===== src/Payment/Repository/Rules.antt =====
-- A rule for each method of the repository: what keeps a property of the tables, whatever the
-- environment answers.
use order_mock_payment.Prelude.{
  ℕ, ◌≡◌, refl, String, true, inl, inr, Bool-cases, Option-cases, Option, none, some, ◌∷◌, arith,
}
use order_mock_payment.Go.Error.{wrap}
use order_mock_payment.Go.Exec.Hoare.{
  Post, Triple, Triple-bind, Triple-on_error, Triple-fail_if, Triple-pure, Triple-weaken,
}
use order_mock_payment.Text.{Text}
use order_mock_payment.Numeric.{Numeric}
use order_mock_payment.Database.Table.{find, find_from, update_where}
use order_mock_payment.Database.World.{Tables, Environment}
use order_mock_payment.Database.Triples.{
  Triple-statement, Triple-get_context, Triple-get_first, Triple-rows_affected,
}
use order_mock_payment.Order.Repository.{has_id, is_payment_of, exists}
use order_mock_payment.Order.Repository.Rules.{Keeps}
use order_mock_payment.Payment.Model.{Payment}
use order_mock_payment.Payment.Repository.{
  payment_has_id, has_reference, is_positive, stored, set_status, insert_row, insert_stored,
  create_payment_query, create, get_by_id, get_by_provider_reference, update_status_query,
  update_status,
}

-- The payment is one that has the reference, the first if the server starts to read at some row.
abbrev pub Found : {D : Type 0} → Text → Payment D → Tables D → Type 0
Found reference p t = (k : ℕ) × (find_from k (has_reference reference) t.payments ≡ some p)

module _ {D : Type 0} (P : Tables D → Type 0) (env : Environment) where
  pub get_by_id-Keeps :
      (payment_id : ℕ)
      → Triple
          (λ w. P w.tables)
          (get_by_id env payment_id)
          (λ p w. P w.tables × (find (payment_has_id payment_id) w.payments ≡ some p))
          (λ _ w. P w.tables)
  unfolding get_by_id
  get_by_id-Keeps payment_id = Triple-on_error _ (Triple-get_context P env _)

  pub get_by_provider_reference-Keeps :
      (reference : Text)
      → Triple
          (λ w. P w.tables)
          (get_by_provider_reference env reference)
          (λ p w. P w.tables × Found reference p w.tables)
          (λ _ w. P w.tables)
  unfolding get_by_provider_reference
  get_by_provider_reference-Keeps reference =
      Triple-on_error _ (Triple-get_first P env (λ t. t.payments) (has_reference reference))

module _ {D : Type 0} (P Q E : Tables D → Type 0) (env : Environment) where
  pub update_status-Triple :
      (payment_id : ℕ) (status : String)
      → ((t : Tables D) → P t → E t)
      → ((t : Tables D) → Q t → E t)
      → ((now : ℕ) (t : Tables D)
          → P t
          → Q (record t {
            payments = update_where (payment_has_id payment_id) (set_status status now) t.payments;
          }))
      → Triple
          (λ w. P w.tables)
          (update_status env payment_id status)
          (λ _ w. Q w.tables)
          (λ _ w. E w.tables)
  unfolding update_status
  update_status-Triple payment_id status same ends h =
      Triple-bind
        (Triple-on_error (wrap "update payment status") (
          Triple-statement P (λ _. Q) E env (update_status_query payment_id status) same
            (λ _ t x. ends t x) (λ id now t x. h now t x)))
        λ res.
          Triple-bind
            (Triple-on_error _ (
              Triple-weaken (Triple-rows_affected Q env res) (λ _ _ x. x)
                (λ _ w x. ends w.tables x)))
            λ n.
              Triple-weaken (Triple-fail_if _ _ (λ w _ x. ends w.tables x)) (λ _ _ x. x.0)
                (λ _ _ x. x)

module _ {D : Type 0} ⦃n : Numeric D⦄ (P : Tables D → Type 0) where
  insert_row-Post :
      (row : Payment D) (t : Tables D)
      → P t
      → (find (payment_has_id row.id) t.payments ≡ none
          → find (is_payment_of row.order_id) t.payments ≡ none
          → is_positive (n.sign row.amount) ≡ true
          → (exists (find (has_id row.order_id) t.orders) ≡ true)
          → P (record t { payments = row ∷ t.payments }))
      → Post (λ _. P) (λ _. P) (insert_row row t)
  unfolding insert_row
  insert_row-Post row t x y = elim (Bool-cases (is_positive (n.sign row.amount))) [
    | inr e ↦ rw e x
    | inl e ↦ elim (Option-cases (find (payment_has_id row.id) t.payments)) [
      | inr (o, d) ↦ rw (e, d) x
      | inl d ↦ elim (Option-cases (find (is_payment_of row.order_id) t.payments)) [
        | inr (o, f) ↦ rw (e, d, f) x
        | inl f ↦ elim (Bool-cases (exists (find (has_id row.order_id) t.orders))) [
          | inr g ↦ rw (e, d, f, g) x
          | inl g ↦ rw (e, d, f, g) (y d f e g)
        ]
      ]
    ]
  ]

  insert_stored-Post :
      (r : Option (Payment D)) (t : Tables D)
      → P t
      → ((row : Payment D)
          → r ≡ some row
          → find (payment_has_id row.id) t.payments ≡ none
          → find (is_payment_of row.order_id) t.payments ≡ none
          → is_positive (n.sign row.amount) ≡ true
          → (exists (find (has_id row.order_id) t.orders) ≡ true)
          → P (record t { payments = row ∷ t.payments }))
      → Post (λ _. P) (λ _. P) (insert_stored r t)
  unfolding insert_stored
  insert_stored-Post none t x y = x
  insert_stored-Post (some row) t x y = insert_row-Post row t x (y row refl)

  stored_same :
      (p row : Payment D)
      → stored p ≡ some row
      → (row.id ≡ p.id)
        × (row.order_id ≡ p.order_id)
        × (row.status ≡ p.status)
        × (row.provider_reference ≡ p.provider_reference)
        × (n.column p.amount ≡ some row.amount)
  stored_same p row e = ground arith

  -- A new row has a new identifier, is the first for its order, which exists, and has the order,
  -- the status and the reference that it was given.
  pub create-Keeps :
      (env : Environment) (p : Payment D)
      → ((row : Payment D) (t : Tables D)
          → P t
          → row.order_id ≡ p.order_id
          → row.status ≡ p.status
          → row.provider_reference ≡ p.provider_reference
          → find (payment_has_id row.id) t.payments ≡ none
          → find (is_payment_of row.order_id) t.payments ≡ none
          → is_positive (n.sign row.amount) ≡ true
          → (exists (find (has_id row.order_id) t.orders) ≡ true)
          → P (record t { payments = row ∷ t.payments }))
      → Keeps P (create env p)
  unfolding create create_payment_query
  create-Keeps env p h =
      Triple-bind
        (Triple-on_error _ (
          Triple-statement P (λ _. P) P env (create_payment_query p) (λ _ x. x) (λ _ _ x. x)
            (λ id now t x.
              insert_stored-Post (stored (record p { id = id; created_at = now; updated_at = now }))
                t x
                (λ row e d f g k. let s = stored_same _ row e in h row t x s.1 s.2 s.3 d f g k))))
        λ row. Triple-weaken (Triple-pure _) (λ _ _ x. x.0) (λ _ _ x. x)
