-- ===== src/Database/Table/Find.antt =====
-- What UPDATE and DELETE do to the row that a later SELECT finds.
use order_mock_payment.Prelude.{
  Bool-cases, inl, inr, ap, false, ℕ, ◌≡◌, ◌≢◌, refl, Bool, true, Option, none, some, List, [], ◌∷◌,
  arith, ◌==◌, if◌then◌else◌,
}
use order_mock_payment.Database.Table.{find, update_where, delete_where, count_where}

abbrev pub map_option : {A B : Type 0} → (A → B) → Option A → Option B
map_option f none = none
map_option f (some a) = some (f a)

module _ {A : Type 0} (p : A → Bool) where
  -- A row that is found passes the test.
  pub find-holds : (xs : List A) {x : A} → find p xs ≡ some x → p x ≡ true
  unfolding find
  find-holds [] e = cc
  find-holds (y ∷ xs) {x} e = ground (arith, find-holds xs {x = x})

  pub count-zero-find : (xs : List A) → count_where p xs ≡ 0 → find p xs ≡ none
  unfolding find count_where
  count-zero-find [] e = refl
  count-zero-find (y ∷ xs) e = ground (arith, count-zero-find xs)

  pub find-none-count : (xs : List A) → find p xs ≡ none → count_where p xs ≡ 0
  unfolding find count_where
  find-none-count [] e = refl
  find-none-count (y ∷ xs) e = ground (arith, find-none-count xs)

module _ {A : Type 0} (key : A → ℕ) where
  abbrev pub keyed : ℕ → A → Bool
  keyed k x = key x == k

  -- An update that leaves the key alone is seen in the row that is found by the key.
  pub find-update_where :
      (k : ℕ) (p : A → Bool) (f : A → A) (xs : List A)
      → ((x : A) → p x ≡ true → key (f x) ≡ key x)
      → find (keyed k) (update_where p f xs)
        ≡ map_option (λ x. if p x then f x else x) (find (keyed k) xs)
  unfolding find update_where
  find-update_where k p f [] h = refl
  find-update_where k p f (x ∷ xs) h = ground (arith, h x, find-update_where k p f xs h)

  -- Deleting rows with another key does not change what is found.
  pub find-delete_where_ne :
      (k : ℕ) (p : A → Bool) (xs : List A)
      → ((x : A) → p x ≡ true → key x ≢ k)
      → find (keyed k) (delete_where p xs) ≡ find (keyed k) xs
  unfolding find delete_where
  find-delete_where_ne k p [] h = refl
  find-delete_where_ne k p (x ∷ xs) h = ground (arith, h x, find-delete_where_ne k p xs h)

module _ {A : Type 0} (q : A → Bool) where
  -- The first row found stays the first if it is not deleted.
  pub find-delete_where_kept :
      (d : A → Bool) (xs : List A) {x : A}
      → find q xs ≡ some x
      → d x ≡ false
      → find q (delete_where d xs) ≡ some x
  unfolding find delete_where
  find-delete_where_kept d [] e h = cc
  find-delete_where_kept d (y ∷ xs) {x} e h =
      ground (arith, find-delete_where_kept d xs {x = x}, ap_test y x)
    where
      ap_test : (y x : A) → y ≡ x → d y ≡ d x
      ap_test y x e = ap d e

-- An update that does not change what a query tests is seen in the row that the query finds.
pub find-update_where_test :
    {A : Type 0} (q p : A → Bool) (f : A → A) (xs : List A)
    → ((x : A) → q (f x) ≡ q x)
    → find q (update_where p f xs) ≡ map_option (λ x. if p x then f x else x) (find q xs)
unfolding find update_where
find-update_where_test q p f [] h = refl
find-update_where_test q p f (x ∷ xs) h = ground (arith, h x, find-update_where_test q p f xs h)

module _ {A : Type 0} (p : A → Bool) where
  pub delete_where-none : (xs : List A) → find p xs ≡ none → delete_where p xs ≡ xs
  unfolding find delete_where
  delete_where-none [] e = refl
  delete_where-none (x ∷ xs) e = elim (Bool-cases (p x)) [
    | inl d ↦ let found = rw d at e in cc
    | inr d ↦ rw d (ap (λ ys. x ∷ ys) (delete_where-none xs (rw d at e)))
  ]

  pub find-delete_where_disjoint :
      (q : A → Bool) (xs : List A)
      → ((x : A) → p x ≡ true → q x ≡ false)
      → find q (delete_where p xs) ≡ find q xs
  unfolding find delete_where
  find-delete_where_disjoint q [] h = refl
  find-delete_where_disjoint q (x ∷ xs) h = ground (arith, h x, find-delete_where_disjoint q xs h)
