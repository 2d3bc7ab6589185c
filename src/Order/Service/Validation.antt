-- ===== src/Order/Service/Validation.antt =====
-- Which requests the order service accepts (internal/order/service.go, Create and Update).
use order_mock_payment.Prelude.{
  ℕ, ◌≤◌, ◌≡◌, ◌≢◌, ◌↔◌, ◌⊎◌, inl, inr, refl, String, true, false, [], ◌∷◌, eq_iff, arith,
}
use order_mock_payment.Go.Error.{Error}
use order_mock_payment.Go.Exec.{ok, err, Exec, lift, ◌>>◌}
use order_mock_payment.Text.{Text, Unicode, is_empty, len, text_eq_iff, to_upper}
use order_mock_payment.Numeric.{Numeric, Sign, negative, null, positive}
use order_mock_payment.Order.Model.{Order, side_buy, side_sell}
use order_mock_payment.Order.Errors.{
  err_invalid_symbol, err_invalid_side, err_invalid_quantity, err_invalid_price,
}
use order_mock_payment.Order.Service.{
  Repository, OrderRequest, validate_symbol, validate_side, validate_quantity, validate_price,
  is_positive, is_negative, new_order, changed_order, create, update,
}

abbrev pub IsSymbol : ⦃u : Unicode⦄ → Text → Type 0
IsSymbol s = (s ≢ []) × (len s ≤ 20) × (s ≡ to_upper s)

abbrev pub IsSide : String → Type 0
IsSide s = (s ≡ "BUY") ⊎ (s ≡ "SELL")

is_empty_iff : (s : Text) → (is_empty s ≡ true) ↔ (s ≡ [])
is_empty_iff [] = (λ _. refl, λ _. refl)
is_empty_iff (c ∷ s) = (λ e. cc, λ e. cc)

IsSymbol-cases :
    ⦃u : Unicode⦄
    → (s : Text)
    → (IsSymbol s × (validate_symbol s ≡ ok tt))
      ⊎ ((IsSymbol s → ⊥) × (validate_symbol s ≡ err err_invalid_symbol))
unfolding validate_symbol
IsSymbol-cases s = ground (arith, is_empty_iff s, text_eq_iff s (to_upper s))

IsSide-cases :
    (s : String)
    → (IsSide s × (validate_side s ≡ ok tt))
      ⊎ ((IsSide s → ⊥) × (validate_side s ≡ err err_invalid_side))
unfolding validate_side
IsSide-cases s = ground (arith, eq_iff s side_buy, eq_iff s side_sell)

positive_cases :
    (s : Sign)
    → ((s ≡ positive) × (is_positive s ≡ true)) ⊎ ((s ≢ positive) × (is_positive s ≡ false))
positive_cases positive = inl (refl, refl)
positive_cases null = inr (λ e. cc, refl)
positive_cases negative = inr (λ e. cc, refl)

negative_cases :
    (s : Sign)
    → ((s ≡ negative) × (is_negative s ≡ true)) ⊎ ((s ≢ negative) × (is_negative s ≡ false))
negative_cases negative = inl (refl, refl)
negative_cases null = inr (λ e. cc, refl)
negative_cases positive = inr (λ e. cc, refl)

module _ {D : Type 0} ⦃n : Numeric D⦄ where
  quantity_cases :
      (q : D)
      → ((n.sign q ≡ positive) × (validate_quantity q ≡ ok tt))
        ⊎ ((n.sign q ≢ positive) × (validate_quantity q ≡ err err_invalid_quantity))
  unfolding validate_quantity
  quantity_cases q = elim (positive_cases (n.sign q)) [
    | inl (s, e) ↦ inl (s, rw e refl)
    | inr (s, e) ↦ inr (s, rw e refl)
  ]

  price_cases :
      (q : D)
      → ((n.sign q ≢ negative) × (validate_price q ≡ ok tt))
        ⊎ ((n.sign q ≡ negative) × (validate_price q ≡ err err_invalid_price))
  unfolding validate_price
  price_cases q = elim (negative_cases (n.sign q)) [
    | inl (s, e) ↦ inr (s, rw e refl)
    | inr (s, e) ↦ inl (s, rw e refl)
  ]

-- The conditions on a request; the length of a symbol is in bytes.
abbrev pub IsAcceptable : {D : Type 0} ⦃u : Unicode⦄ ⦃n : Numeric D⦄ → OrderRequest D → Type 0
IsAcceptable ⦃n = n⦄ req =
    IsSymbol req.symbol
    × IsSide req.side
    × (n.sign req.quantity ≡ positive)
    × (n.sign req.price ≢ negative)

-- The first condition that fails, in the order symbol, side, quantity, price, with its error.
abbrev pub IsRefusal : {D : Type 0} ⦃u : Unicode⦄ ⦃n : Numeric D⦄ → OrderRequest D → Error → Type 0
IsRefusal ⦃n = n⦄ req e =
    ((IsSymbol req.symbol → ⊥) × (e ≡ err_invalid_symbol))
    ⊎ (IsSymbol req.symbol × (IsSide req.side → ⊥) × (e ≡ err_invalid_side))
    ⊎ (IsSymbol req.symbol
        × IsSide req.side
        × (n.sign req.quantity ≢ positive)
        × (e ≡ err_invalid_quantity))
    ⊎ (IsSymbol req.symbol
        × IsSide req.side
        × (n.sign req.quantity ≡ positive)
        × (n.sign req.price ≡ negative)
        × (e ≡ err_invalid_price))

-- The checks that Create and Update begin with, in front of `k`.
abbrev checked :
    {S D : Type 0} ⦃u : Unicode⦄ ⦃n : Numeric D⦄
    → OrderRequest D
    → Exec S (Order D)
    → Exec S (Order D)
checked req k = do
  lift (validate_symbol req.symbol)
  lift (validate_side req.side)
  lift (validate_quantity req.quantity)
  lift (validate_price req.price)
  k

checked_cases :
    {S D : Type 0} ⦃u : Unicode⦄ ⦃n : Numeric D⦄ (req : OrderRequest D) (k : Exec S (Order D))
    (w : S)
    → (IsAcceptable req × (checked req k w ≡ k w))
      ⊎ ((e : Error) × IsRefusal req e × (checked req k w ≡ (err e, w)))
checked_cases req k w = elim (IsSymbol-cases req.symbol) [
  | inr (a, r) ↦ inr (err_invalid_symbol, inl (a, refl), rw r refl)
  | inl (a, r) ↦ elim (IsSide-cases req.side) [
    | inr (b, q) ↦ inr (err_invalid_side, inr (inl (a, b, refl)), rw (r, q) refl)
    | inl (b, q) ↦ elim (quantity_cases req.quantity) [
      | inr (c, x) ↦ inr (err_invalid_quantity, inr (inr (inl (a, b, c, refl))), rw (r, q, x) refl)
      | inl (c, x) ↦ elim (price_cases req.price) [
        | inr (d, y) ↦
            inr (err_invalid_price, inr (inr (inr (a, b, c, d, refl))), rw (r, q, x, y) refl)
        | inl (d, y) ↦ inl ((a, b, c, d), rw (r, q, x, y) refl)
      ]
    ]
  ]
]

IsRefusal-not :
    (D : Type 0) ⦃u : Unicode⦄ ⦃n : Numeric D⦄ (req : OrderRequest D) (e : Error)
    → IsRefusal req e
    → IsAcceptable req
    → ⊥
IsRefusal-not D req e (inl (b, _)) a = b a.0
IsRefusal-not D req e (inr (inl (_, b, _))) a = b a.1
IsRefusal-not D req e (inr (inr (inl (_, _, b, _)))) a = b a.2
IsRefusal-not D req e (inr (inr (inr (_, _, _, b, _)))) a = a.3 b

module _ {S D : Type 0} ⦃u : Unicode⦄ ⦃n : Numeric D⦄ (repo : Repository S D) (user_id : ℕ)
    (req : OrderRequest D) (w : S) where
  -- For any repository, request and state: either the request is acceptable (a symbol that is not
  -- empty, has at most 20 bytes and is its own upper case, the side "BUY" or "SELL", a positive
  -- quantity, a price that is not negative), and creating the order is the repository's insertion
  -- of a pending order of the caller; or it is refused with the error of its first bad field in
  -- this order, and the state is unchanged.
  pub create-validates :
      (IsAcceptable req × (create repo user_id req w ≡ repo.create (new_order user_id req) w))
      ⊎ ((e : Error) × IsRefusal req e × (create repo user_id req w ≡ (err e, w)))
  unfolding create
  create-validates = checked_cases req (repo.create (new_order user_id req)) w

  -- For any repository, request and state: either the request is acceptable as for a new order,
  -- and the update is the repository's update of the caller's order; or it is refused with the
  -- error of its first bad field, and the state is unchanged.
  pub update-validates :
      (order_id : ℕ)
      → (IsAcceptable req
          × (update repo user_id order_id req w
              ≡ repo.update (changed_order user_id order_id req) w))
        ⊎ ((e : Error) × IsRefusal req e × (update repo user_id order_id req w ≡ (err e, w)))
  unfolding update
  update-validates order_id = checked_cases req (repo.update (changed_order user_id order_id req)) w

  pub update-accepted :
      IsAcceptable req
      → (order_id : ℕ)
      → update repo user_id order_id req w ≡ repo.update (changed_order user_id order_id req) w
  update-accepted a order_id = elim (update-validates order_id) [
    | inl (_, e) ↦ e
    | inr (_, r, _) ↦ absurd (IsRefusal-not D req _ r a)
  ]
