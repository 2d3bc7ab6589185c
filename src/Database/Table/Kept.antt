-- ===== src/Database/Table/Kept.antt =====
-- Rows that a query finds, after updates and deletions of others.
use mathlib.Core.Option.{some-injective}
use order_mock_payment.Prelude.{
  refl, ℕ, ◌≡◌, ◌≢◌, sym, ap, ◌∙◌, Bool, true, false, none, some, List, [], ◌∷◌, ◌==◌, arith, inl,
  inr, Bool-cases,
}
use order_mock_payment.Database.Table.{find, update_where}
use order_mock_payment.Database.Table.Find.{keyed}
use order_mock_payment.Database.Table.Unique.{All, All-weaken, Unique, find-key}

module _ {A : Type 0} where
  pub All-both : (P Q : A → Type 0) (xs : List A) → All P xs → All Q xs → All (λ x. P x × Q x) xs
  All-both P Q [] a b = tt
  All-both P Q (x ∷ xs) a b = ((a.0, b.0), All-both P Q xs a.1 b.1)

  -- A row that one query finds satisfies another, so that finds a row too.
  pub find-also :
      (p q : A → Bool) (xs : List A) {x : A} → find p xs ≡ some x → q x ≡ true → find q xs ≢ none
  unfolding find
  find-also p q [] e h n = cc
  find-also p q (y ∷ xs) {x} e h n = ground (arith, find-also p q xs {x = x}, same q y x)
    where
      same : (q : A → Bool) (y x : A) → some y ≡ some x → q y ≡ q x
      same q y x e = ap q (some-injective y x e)

  -- A row that an update changes is found by what it has become.
  pub find-updated_row :
      (p q : A → Bool) (f : A → A) (xs : List A) {x : A}
      → find p xs ≡ some x
      → q (f x) ≡ true
      → find q (update_where p f xs) ≢ none
  unfolding find update_where
  find-updated_row p q f [] e h n = cc
  find-updated_row p q f (y ∷ xs) {x} e h n =
      ground (arith, find-updated_row p q f xs {x = x}, image f y x)
    where
      image : (f : A → A) (y x : A) → some y ≡ some x → f y ≡ f x
      image f y x e = ap f (some-injective y x e)

  -- What an update puts in the place of the rows that a query finds.
  pub find-replaced :
      (q : A → Bool) (row : A) (xs : List A)
      → find q xs ≢ none
      → q row ≡ true
      → find q (update_where q (λ _. row) xs) ≡ some row
  unfolding find update_where
  find-replaced q row [] e h = absurd (e refl)
  find-replaced q row (y ∷ xs) e h = elim (Bool-cases (q y)) [
    | inl d ↦ rw d (rw h refl)
    | inr d ↦ rw d (rw d (find-replaced q row xs (rw d at e) h))
  ]

  -- A row that an update leaves alone is still found.
  pub find-other_row :
      (p q : A → Bool) (f : A → A) (xs : List A) {x : A}
      → find q xs ≡ some x
      → p x ≡ false
      → find q (update_where p f xs) ≢ none
  unfolding find update_where
  find-other_row p q f [] e h n = cc
  find-other_row p q f (y ∷ xs) {x} e h n =
      ground (arith, find-other_row p q f xs {x = x}, same p y x)
    where
      same : (p : A → Bool) (y x : A) → some y ≡ some x → p y ≡ p x
      same p y x e = ap p (some-injective y x e)

module _ {A : Type 0} (key : A → ℕ) where
  absent : (k : ℕ) (xs : List A) → find (keyed key k) xs ≡ none → All (λ x. key x ≢ k) xs
  unfolding find
  absent k [] e = tt
  absent k (x ∷ xs) e = elim (Bool-cases (key x == k)) [
    | inl d ↦ let found = rw d at e in cc
    | inr d ↦ (λ h. differ (key x) k d h, absent k xs (rw d at e))
  ]
    where
      differ : (a b : ℕ) → (a == b) ≡ false → a ≢ b
      differ a b d h = ground arith

  clash :
      (xs : List A) (y x : A)
      → key y ≡ key x
      → find (keyed key (key y)) xs ≡ none
      → find (keyed key (key x)) xs ≢ some x
  clash xs y x k e f = let same = ap (λ j. find (keyed key j) xs) k in cc

  -- In a table where no two rows share a key, each row with the key of one that is found is that row.
  pub only_row :
      (q : A → Bool) (xs : List A) {x : A}
      → Unique key xs
      → find q xs ≡ some x
      → All (λ y. key y ≡ key x → y ≡ x) xs
  unfolding find
  only_row q [] u e = tt
  only_row q (y ∷ xs) {x} u e = elim (Bool-cases (q y)) [
    | inl h ↦
        let same = some-injective y x (rw h at e) in
        (
          λ _. same,
          All-weaken (λ z. key z ≢ key y) (λ z. key z ≡ key x → z ≡ x) xs
              (λ z ne k. absurd (ne (k ∙ sym (ap key same)))) (absent (key y) xs u.0),
        )
    | inr h ↦ (
      λ k. absurd (clash xs y x k u.0 (find-key key q xs u.1 (rw h at e))),
      only_row q xs u.1 (rw h at e),
    )
  ]
