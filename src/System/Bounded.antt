-- ===== src/System/Bounded.antt =====
-- The sizes of stored uploads (internal/upload/service.go).
use order_mock_payment.Prelude.{ℕ, ◌≡◌, ◌≤◌, List, false, arith, ltb, ◌==◌}
use order_mock_payment.Text.{Unicode}
use order_mock_payment.Numeric.{Numeric}
use order_mock_payment.Database.Table.Unique.{All, All-delete_where}
use order_mock_payment.Database.World.{World, Tables, Environment}
use order_mock_payment.Order.Repository.{is_upload_of}
use order_mock_payment.Upload.Model.{Upload}
use order_mock_payment.System.Changes.{Changes, run-kept}
use order_mock_payment.System.Calls.{Call, run}

within : (size max : ℕ) → (size == 0) ≡ false → ltb max size ≡ false → (1 ≤ size) × (size ≤ max)
within size max given small = (ground arith, ground arith)

module _ {D : Type 0} (env : Environment) where
  -- Every upload has at least one byte, and at most as many as the configuration allows.
  abbrev pub Bounded : Tables D → Type 0
  Bounded t = All (λ (x : Upload). (1 ≤ x.size) × (x.size ≤ env.outside.max_size)) t.uploads

  changes-Bounded : Changes env.outside.max_size Bounded (λ _ _ _. Unit)
  changes-Bounded = record {
    insert_order = λ _ _ h _ _ _. h;
    replace_order = λ _ _ _ _ _ h _ _ _. h;
    remove_order =
        λ _ order_id t h _. All-delete_where _ _ (is_upload_of order_id) t.uploads (λ _ _ x. x) h;
    insert_payment = λ _ _ h _ _ _. h;
    await_payment = λ _ _ _ _ h. h;
    moves = λ _ _ _ _ _. tt;
    settle = λ _ _ _ _ _ h _ _. (h, tt);
    advance = λ _ _ _ _ _ h _. h;
    insert_upload =
        λ row _ h given small _ _. (within row.size env.outside.max_size given small, h);
    insert_user = λ _ _ h _. h;
  }

module _ {D : Type 0} ⦃u : Unicode⦄ ⦃n : Numeric D⦄ (env : Environment) where
  -- If every stored upload has at least one byte and at most the configured maximum, the same
  -- holds after any sequence of calls.
  pub run-Bounded :
      (cs : List (Call D)) (w : World D) → Bounded env w.tables → Bounded env (run env cs w).tables
  run-Bounded = run-kept env (Bounded env) (λ _ _ _. Unit) (changes-Bounded env)
