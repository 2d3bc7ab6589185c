-- ===== src/Database/Table/Select.antt =====
-- What UPDATE and DELETE leave alone in the rows that a later SELECT returns.
use order_mock_payment.Prelude.{◌≡◌, refl, Bool, true, false, List, [], ◌∷◌, arith}
use order_mock_payment.Database.Table.{select, update_where, delete_where}

module _ {A : Type 0} (q p : A → Bool) where
  pub select-update_where_ne :
      (f : A → A) (xs : List A)
      → ((x : A) → p x ≡ true → q x ≡ false)
      → ((x : A) → p x ≡ true → q (f x) ≡ false)
      → select q (update_where p f xs) ≡ select q xs
  unfolding select update_where
  select-update_where_ne f [] h k = refl
  select-update_where_ne f (x ∷ xs) h k = ground (arith, h x, k x, select-update_where_ne f xs h k)

  pub select-delete_where_ne :
      (xs : List A)
      → ((x : A) → p x ≡ true → q x ≡ false)
      → select q (delete_where p xs) ≡ select q xs
  unfolding select delete_where
  select-delete_where_ne [] h = refl
  select-delete_where_ne (x ∷ xs) h = ground (arith, h x, select-delete_where_ne xs h)
