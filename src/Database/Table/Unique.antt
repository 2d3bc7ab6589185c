-- ===== src/Database/Table/Unique.antt =====
-- A key that no two rows share, and predicates that hold of every row.
use mathlib.Core.Path.{subst}
use mathlib.Core.Option.{some-injective}
use order_mock_payment.Prelude.{
  false, Bool-cases, inl, inr, ℕ, ◌≡◌, ◌≢◌, refl, ap, Bool, true, none, some, List, [], ◌∷◌, arith,
}
use order_mock_payment.Database.Table.{find, update_where, delete_where}
use order_mock_payment.Database.Table.Find.{keyed}

module _ {A : Type 0} where
  abbrev pub All : (A → Type 0) → List A → Type 0
  All P [] = Unit
  All P (x ∷ xs) = P x × All P xs

  pub All-update_where :
      (P : A → Type 0) (p : A → Bool) (f : A → A) (xs : List A)
      → ((x : A) → p x ≡ true → P x → P (f x))
      → All P xs
      → All P (update_where p f xs)
  unfolding update_where
  All-update_where P p f [] h a = tt
  All-update_where P p f (x ∷ xs) h a = (
    elim (Bool-cases (p x)) [ inl e ↦ rw e (h x e a.0) | inr e ↦ rw e (a.0) ],
    All-update_where P p f xs h a.1,
  )

  pub All-weaken : (P Q : A → Type 0) (xs : List A) → ((x : A) → P x → Q x) → All P xs → All Q xs
  All-weaken P Q [] h a = tt
  All-weaken P Q (x ∷ xs) h a = (h x a.0, All-weaken P Q xs h a.1)

  -- The rows that are left may be known to fail the test.
  pub All-delete_where :
      (P Q : A → Type 0) (p : A → Bool) (xs : List A)
      → ((x : A) → p x ≡ false → P x → Q x)
      → All P xs
      → All Q (delete_where p xs)
  unfolding delete_where
  All-delete_where P Q p [] h a = tt
  All-delete_where P Q p (x ∷ xs) h a = elim (Bool-cases (p x)) [
    | inl e ↦ rw e (All-delete_where P Q p xs h a.1)
    | inr e ↦ rw e (h x e a.0, All-delete_where P Q p xs h a.1)
  ]

  pub All-find :
      (P : A → Type 0) (p : A → Bool) (xs : List A) {x : A} → All P xs → find p xs ≡ some x → P x
  unfolding find
  All-find P p [] a e = cc
  All-find P p (y ∷ xs) {x} a e = elim (Bool-cases (p y)) [
    | inl h ↦ subst P (some-injective y x (rw h at e)) a.0
    | inr h ↦ All-find P p xs a.1 (rw h at e)
  ]

module _ {A : Type 0} (key : A → ℕ) where
  abbrev pub Unique : List A → Type 0
  Unique [] = Unit
  Unique (x ∷ xs) = (find (keyed key (key x)) xs ≡ none) × Unique xs

  key_of_eq : (x y : A) → x ≡ y → key x ≡ key y
  key_of_eq x y e = ap key e

  find-none-delete :
      (k : ℕ) (p : A → Bool) (xs : List A)
      → find (keyed key k) xs ≡ none
      → find (keyed key k) (delete_where p xs) ≡ none
  unfolding find delete_where
  find-none-delete k p [] h = refl
  find-none-delete k p (x ∷ xs) h = ground (arith, find-none-delete k p xs)

  find-none-update :
      (k : ℕ) (p : A → Bool) (f : A → A) (xs : List A)
      → ((x : A) → p x ≡ true → key (f x) ≡ key x)
      → find (keyed key k) xs ≡ none
      → find (keyed key k) (update_where p f xs) ≡ none
  unfolding find update_where
  find-none-update k p f [] h e = refl
  find-none-update k p f (x ∷ xs) h e = ground (arith, h x, find-none-update k p f xs h)

  pub Unique-delete_where : (p : A → Bool) (xs : List A) → Unique xs → Unique (delete_where p xs)
  unfolding delete_where
  Unique-delete_where p [] u = tt
  Unique-delete_where p (x ∷ xs) u =
      ground (arith, Unique-delete_where p xs u.1, find-none-delete (key x) p xs u.0)

  pub Unique-update_where :
      (p : A → Bool) (f : A → A) (xs : List A)
      → ((x : A) → p x ≡ true → key (f x) ≡ key x)
      → Unique xs
      → Unique (update_where p f xs)
  unfolding update_where
  Unique-update_where p f [] h u = tt
  Unique-update_where p f (x ∷ xs) h u =
      ground (arith, Unique-update_where p f xs h u.1, find-none-update (key x) p f xs h u.0, h x)

  find-none-test :
      (q : A → Bool) (xs : List A) {x : A} → find q xs ≡ some x → find (keyed key (key x)) xs ≢ none
  unfolding find
  find-none-test q [] e n = cc
  find-none-test q (y ∷ xs) {x} e n = ground (arith, find-none-test q xs {x = x})

  -- A row that any query finds is the row with its key.
  pub find-key :
      (q : A → Bool) (xs : List A) {x : A}
      → Unique xs
      → find q xs ≡ some x
      → find (keyed key (key x)) xs ≡ some x
  unfolding find
  find-key q [] u e = cc
  find-key q (y ∷ xs) {x} u e =
      ground (arith, find-key q xs {x = x} u.1, find-none-test q xs {x = x}, key_of_eq y x)

  -- Deleting the row with a key leaves no row with it.
  pub find-delete_where_self :
      (k : ℕ) (p : A → Bool) (xs : List A) {x : A}
      → Unique xs
      → find (keyed key k) xs ≡ some x
      → p x ≡ true
      → find (keyed key k) (delete_where p xs) ≡ none
  unfolding find delete_where
  find-delete_where_self k p [] u e h = refl
  find-delete_where_self k p (y ∷ xs) {x} u e h =
      ground
        (arith, find-delete_where_self k p xs {x = x} u.1, find-none-delete k p xs, key_of_eq y x)
