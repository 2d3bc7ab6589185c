-- ===== src/Database/Table.antt =====
-- Rows of a table under a WHERE clause. SQL gives the rows of a table in no particular order.
pub mod Find
pub mod Unique
pub mod Kept
pub mod Select
pub mod From
use order_mock_payment.Prelude.{
  ℕ, zero, suc, ◌+◌, Bool, Option, none, some, List, [], ◌∷◌, if◌then◌else◌,
}

module _ {A : Type 0} where
  -- The first row of SELECT … WHERE p.
  unfoldable pub find : (A → Bool) → List A → Option A
  find p [] = none
  find p (x ∷ xs) = if p x then some x else find p xs

  abbrev pub or_else : Option A → Option A → Option A
  or_else (some x) m = some x
  or_else none m = m

  -- The row of SELECT … WHERE p that comes first when the server starts to read at the k-th row, and
  -- reads those before it last.
  unfoldable pub find_from : ℕ → (A → Bool) → List A → Option A
  unfolding find
  find_from zero p xs = find p xs
  find_from (suc k) p [] = none
  find_from (suc k) p (x ∷ xs) = or_else (find_from k p xs) (if p x then some x else none)

  -- SELECT … WHERE p
  unfoldable pub select : (A → Bool) → List A → List A
  select p [] = []
  select p (x ∷ xs) = let rest = select p xs in if p x then x ∷ rest else rest

  -- UPDATE … SET f WHERE p
  unfoldable pub update_where : (A → Bool) → (A → A) → List A → List A
  update_where p f [] = []
  update_where p f (x ∷ xs) = (if p x then f x else x) ∷ update_where p f xs

  -- DELETE … WHERE p
  unfoldable pub delete_where : (A → Bool) → List A → List A
  delete_where p [] = []
  delete_where p (x ∷ xs) = let rest = delete_where p xs in if p x then rest else x ∷ rest

  -- How many rows p accepts.
  unfoldable pub count_where : (A → Bool) → List A → ℕ
  count_where p [] = 0
  count_where p (x ∷ xs) = (if p x then 1 else 0) + count_where p xs
