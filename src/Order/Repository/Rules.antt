-- ===== src/Order/Repository/Rules.antt =====
-- A rule for each method of the repository: what keeps a property of the tables, whatever the
-- environment answers.
use order_mock_payment.Prelude.{
  ◌≢◌, false, ℕ, ◌≡◌, String, inl, inr, Bool-cases, none, some, arith, ◌==◌,
}
use order_mock_payment.Go.Error.{Error, wrap}
use order_mock_payment.Go.Exec.{ok, Exec, fail_if, on_error, ◌>>=◌}
use order_mock_payment.Go.Exec.Hoare.{
  Post, Triple, Triple-bind, Triple-on_error, Triple-fail_if, Triple-weaken,
}
use order_mock_payment.Database.Table.Find.{find-none-count}
use order_mock_payment.Database.Table.{find, update_where, delete_where, count_where}
use order_mock_payment.Database.World.{World, Tables, Environment, rows_affected}
use order_mock_payment.Database.Triples.{Triple-statement, Triple-get_context, Triple-rows_affected}
use order_mock_payment.Order.Errors.{err_order_not_found}
use order_mock_payment.Order.Repository.{
  has_id, is_owned, is_payment_of, is_upload_of, set_status, get_by_id, list, list_orders_query,
  update_status_query, update_status, advance_status, delete_order_query, delete,
}

-- `m` keeps `P` of the tables, whether it returns or fails.
abbrev pub Keeps : {D A : Type 0} → (Tables D → Type 0) → Exec (World D) A → Type 0
Keeps P m = Triple (λ w. P w.tables) m (λ _ w. P w.tables) (λ _ w. P w.tables)

module _ {D : Type 0} (P : Tables D → Type 0) where
  -- The end of a method: count the rows, and fail if there are none.
  affected-Keeps :
      (env : Environment) (context : String) (e : Error) (m : Exec (World D) ℕ)
      → Keeps P m
      → Keeps P
          (m >>= λ res. on_error (wrap context) (rows_affected env res) >>= λ n. fail_if (n == 0) e)
  affected-Keeps env context e m k = Triple-bind k λ res.
      Triple-bind (Triple-on_error _ (Triple-rows_affected P env res))
        λ n. Triple-weaken (Triple-fail_if _ _ (λ _ _ x. x)) (λ _ _ x. x.0) (λ _ _ x. x)

  module _ (env : Environment) (order_id : ℕ) (status : String) where
    pub update_status-Keeps :
        (user_id : ℕ)
        → ((now : ℕ) (t : Tables D)
            → P t
            → P (record t {
              orders = update_where (is_owned user_id order_id) (set_status status now) t.orders;
            }))
        → Keeps P (update_status env user_id order_id status)
    unfolding update_status
    update_status-Keeps user_id h =
        affected-Keeps env "update order status rows affected" err_order_not_found _ (
          Triple-on_error (wrap "update order status") (
            Triple-statement P (λ _. P) P env
              (update_status_query (is_owned user_id order_id) status) (λ _ x. x) (λ _ _ x. x)
              (λ id now t x. h now t x)))

    pub advance_status-Keeps :
        ((now : ℕ) (t : Tables D)
          → P t
          → P (record t {
            orders = update_where (has_id order_id) (set_status status now) t.orders;
          }))
        → Keeps P (advance_status env order_id status)
    unfolding advance_status
    advance_status-Keeps h =
        affected-Keeps env "advance order status rows affected" err_order_not_found _ (
          Triple-on_error (wrap "advance order status") (
            Triple-statement P (λ _. P) P env (update_status_query (has_id order_id) status)
              (λ _ x. x) (λ _ _ x. x) (λ id now t x. h now t x)))

  zero_ne : {k : ℕ} → k ≡ 0 → (k == 0) ≢ false
  zero_ne e f = ground arith

  delete_query-Post :
      (user_id order_id : ℕ) (t : Tables D)
      → P t
      → (find (is_owned user_id order_id) t.orders ≢ none
          → P (record t {
            orders = delete_where (is_owned user_id order_id) t.orders;
            payments = delete_where (is_payment_of order_id) t.payments;
            uploads = delete_where (is_upload_of order_id) t.uploads;
          }))
      → Post (λ _. P) (λ _. P) (delete_order_query user_id order_id 0 0 t)
  unfolding delete_order_query
  delete_query-Post user_id order_id t x y =
      elim (Bool-cases (count_where (is_owned user_id order_id) t.orders == 0)) [
        | inl e ↦ rw e x
        | inr e ↦ rw e (y (λ d. zero_ne (find-none-count _ t.orders d) e))
      ]

  pub delete-Keeps :
      (env : Environment) (user_id order_id : ℕ)
      → ((t : Tables D)
          → P t
          → find (is_owned user_id order_id) t.orders ≢ none
          → P (record t {
            orders = delete_where (is_owned user_id order_id) t.orders;
            payments = delete_where (is_payment_of order_id) t.payments;
            uploads = delete_where (is_upload_of order_id) t.uploads;
          }))
      → Keeps P (delete env user_id order_id)
  unfolding delete
  delete-Keeps env user_id order_id h = affected-Keeps env _ _ _ (
      Triple-on_error _ (
        Triple-statement P (λ _. P) P env _ (λ _ x. x) (λ _ _ x. x)
          (λ id now t x. delete_query-Post user_id order_id t x (λ f. h t x f))))

  pub get_by_id-Keeps :
      (env : Environment) (user_id order_id : ℕ)
      → Triple
          (λ w. P w.tables)
          (get_by_id env user_id order_id)
          (λ o w. P w.tables × (find (is_owned user_id order_id) w.orders ≡ some o))
          (λ _ w. P w.tables)
  unfolding get_by_id
  get_by_id-Keeps env user_id order_id = Triple-on_error _ (Triple-get_context P env _)

  pub list-Keeps : (env : Environment) (user_id : ℕ) → Keeps P (list env user_id)
  unfolding list
  list-Keeps env user_id = Triple-on_error (wrap "list orders") (
      Triple-statement P (λ _. P) P env (λ _ _ t. (ok (list_orders_query user_id t), t)) (λ _ x. x)
        (λ _ _ x. x) (λ id now t x. x))
