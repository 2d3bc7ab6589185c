-- ===== src/Database/Table/From.antt =====
-- The row that a query finds when the server may start to read at any row.
use mathlib.Core.Option.{some-injective}
use order_mock_payment.Prelude.{
  ◌⊎◌, ◌==◌, ==_refl, eq_of_==, ℕ, zero, suc, ◌≡◌, ◌∙◌, refl, sym, ap, Bool, true, false, Option,
  none, some, List, [], ◌∷◌, arith, inl, inr, Bool-cases, if◌then◌else◌,
}
use order_mock_payment.Database.Table.{find, find_from, or_else, update_where, count_where}
use order_mock_payment.Database.Table.Find.{map_option, keyed, find-holds, find-update_where_test}
use order_mock_payment.Database.Table.Unique.{Unique, find-key}

module _ {A : Type 0} where
  -- The row is behind the first one, or it is the first one.
  or_else-cases :
      (m : Option A) (b : Bool) (y : A) {x : A}
      → or_else m (if b then some y else none) ≡ some x
      → (m ≡ some x) ⊎ ((m ≡ none) × (b ≡ true) × (y ≡ x))
  or_else-cases (some a) b y e = inl e
  or_else-cases none true y {x} e = inr (refl, refl, some-injective y x e)
  or_else-cases none false y e = absurd cc

  or_else-map :
      (p : A → Bool) (g : A → A) (m : Option A) (x : A)
      → p (g x) ≡ p x
      → or_else (map_option g m) (if p (g x) then some (g x) else none)
        ≡ map_option g (or_else m (if p x then some x else none))
  or_else-map p g (some a) x h = refl
  or_else-map p g none x h = elim (Bool-cases (p x)) [
    | inl e ↦ rw (h ∙ e, e) refl
    | inr e ↦ rw (h ∙ e, e) refl
  ]

  same_test :
      (p q : A → Bool) (f : A → A) (x : A) → p (f x) ≡ p x → p (if q x then f x else x) ≡ p x
  same_test p q f x h = elim (Bool-cases (q x)) [ inl e ↦ rw e h | inr e ↦ rw e refl ]

  module _ (p : A → Bool) where
    pub find_from-holds : (k : ℕ) (xs : List A) {x : A} → find_from k p xs ≡ some x → p x ≡ true
    unfolding find_from
    find_from-holds zero xs e = find-holds p xs e
    find_from-holds (suc k) [] e = absurd cc
    find_from-holds (suc k) (y ∷ xs) {x} e = elim (or_else-cases (find_from k p xs) (p y) y e) [
      | inl f ↦ find_from-holds k xs f
      | inr (_, h, same) ↦ sym (ap p same) ∙ h
    ]

    -- An update that does not change what is tested is seen in the row that is found.
    pub find_from-update_where_test :
        (k : ℕ) (q : A → Bool) (f : A → A) (xs : List A)
        → ((x : A) → p (f x) ≡ p x)
        → find_from k p (update_where q f xs)
          ≡ map_option (λ x. if q x then f x else x) (find_from k p xs)
    unfolding find_from update_where
    find_from-update_where_test zero q f xs h = find-update_where_test p q f xs h
    find_from-update_where_test (suc k) q f [] h = refl
    find_from-update_where_test (suc k) q f (x ∷ xs) h =
        rw (find_from-update_where_test k q f xs h) (
          or_else-map p (λ y. if q y then f y else y) (find_from k p xs) x
            (same_test p q f x (h x)))

    pub count-update_where_test :
        (q : A → Bool) (f : A → A) (xs : List A)
        → ((x : A) → p (f x) ≡ p x)
        → count_where p (update_where q f xs) ≡ count_where p xs
    unfolding count_where update_where
    count-update_where_test q f [] h = refl
    count-update_where_test q f (x ∷ xs) h = ground (arith, h x, count-update_where_test q f xs h)

    find_from-none : (k : ℕ) (xs : List A) → count_where p xs ≡ 0 → find_from k p xs ≡ none
    unfolding find_from find count_where
    find_from-none zero [] e = refl
    find_from-none zero (x ∷ xs) e = ground (arith, find_from-none zero xs)
    find_from-none (suc k) [] e = refl
    find_from-none (suc k) (x ∷ xs) e = elim (Bool-cases (p x)) [
      | inl h ↦ absurd (let d = rw h at e in omega arith)
      | inr h ↦ rw (find_from-none k xs (let d = rw h at e in omega arith), h) refl
    ]

    last : (m : Option A) → or_else m none ≡ m
    last none = refl
    last (some x) = refl

    -- If one row passes the test, it is found wherever the server starts to read.
    pub find_from-only : (k : ℕ) (xs : List A) → count_where p xs ≡ 1 → find_from k p xs ≡ find p xs
    unfolding find_from find count_where
    find_from-only zero xs e = refl
    find_from-only (suc k) [] e = refl
    find_from-only (suc k) (x ∷ xs) e = elim (Bool-cases (p x)) [
      | inl h ↦ rw (find_from-none k xs (let d = rw h at e in omega arith), h) refl
      | inr h ↦ rw (find_from-only k xs (let d = rw h at e in omega arith), h) (last (find p xs))
    ]

module _ {A : Type 0} (key : A → ℕ) (q : A → Bool) where
  -- The row that is found is the row with its key.
  pub find_from-key :
      (k : ℕ) (xs : List A) {x : A}
      → Unique key xs
      → find_from k q xs ≡ some x
      → find (keyed key (key x)) xs ≡ some x
  unfolding find_from find
  find_from-key zero xs u e = find-key key q xs u e
  find_from-key (suc k) [] u e = absurd cc
  find_from-key (suc k) (y ∷ xs) {x} u e = elim (or_else-cases (find_from k q xs) (q y) y e) [
    | inl f ↦ behind (find_from-key k xs u.1 f)
    | inr (_, h, same) ↦ rw (ap (λ z. key y == key z) (sym same) ∙ ==_refl (key y)) (ap some same)
  ]
    where
      behind : find (keyed key (key x)) xs ≡ some x → find (keyed key (key x)) (y ∷ xs) ≡ some x
      behind f = elim (Bool-cases (key y == key x)) [
        | inr d ↦ rw d f
        | inl d ↦
            let clash =
              sym u.0 ∙ ap (λ k. find (keyed key k) xs) (eq_of_== (key y) (key x) d) ∙ f in
            absurd cc
      ]
