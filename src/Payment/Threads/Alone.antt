-- ===== src/Payment/Threads/Alone.antt =====
-- A thread that runs alone is the function that it stands for.
use order_mock_payment.Prelude.{ℕ, ◌≡◌, refl, String, ◌∷◌, [], inl, inr, Bool-cases, str_eq}
use order_mock_payment.Go.Exec.{Exec}
use order_mock_payment.Go.Exec.Cases.{answer-cases}
use order_mock_payment.Text.{Text}
use order_mock_payment.Numeric.{Numeric}
use order_mock_payment.Payment.Model.{Payment, status_pending}
use order_mock_payment.Payment.Service.{
  Service, create, apply_provider_callback, settle, order_status_of, is_positive, default_currency,
}
use order_mock_payment.Payment.Service.Create.{requested}
use order_mock_payment.Order.Model as Order
use order_mock_payment.Payment.Threads.{
  Request, creation, report, started, reading, loading, returned, is_unknown, chosen, interleave,
}

module _ {S D : Type 0} ⦃n : Numeric D⦄ (s : Service S D) where
  -- The turns from the loaded payment on.
  settle_turns :
      (status : String) (p : Payment D) (w : S)
      → interleave s (0 ∷ 0 ∷ 0 ∷ []) (chosen status p ∷ []) w
        ≡ (let (r, v) = settle s status p w in (returned r ∷ [], v))
  unfolding interleave settle
  settle_turns status p w = elim (Bool-cases (str_eq p.status status)) [
    | inl e ↦ rw e refl
    | inr e ↦ elim (Bool-cases (str_eq p.status status_pending)) [
      | inr d ↦ rw (e, d) refl
      | inl d ↦ elim (answer-cases (s.repo.update_status p.id status w)) [
        | inr (c, v, u) ↦ rw (e, d, u) refl
        | inl (a, v, u) ↦
            elim (answer-cases (s.orders.advance_status p.order_id (order_status_of status) v)) [
              | inr (c, x, k) ↦ rw (e, d, u, k) refl
              | inl (b, x, k) ↦ rw (e, d, u, k) refl
            ]
      ]
    ]
  ]

  callback_turns :
      (reference : Text) (status : String) (w : S)
      → interleave s (0 ∷ 0 ∷ 0 ∷ 0 ∷ []) (loading reference status ∷ []) w
        ≡ (let (r, v) = apply_provider_callback s reference status w in (returned r ∷ [], v))
  unfolding apply_provider_callback interleave
  callback_turns reference status w = elim (Bool-cases (is_unknown status)) [
    | inl e ↦ rw e refl
    | inr e ↦ elim (answer-cases (s.repo.get_by_provider_reference reference w)) [
      | inr (c, v, u) ↦ rw (e, u) refl
      | inl (p, v, u) ↦ rw (e, u) (settle_turns status p v)
    ]
  ]

  creation_turns :
      (user_id order_id : ℕ) (w : S)
      → interleave s (0 ∷ 0 ∷ 0 ∷ 0 ∷ []) (reading user_id order_id ∷ []) w
        ≡ (let (r, v) = create s user_id order_id w in (returned r ∷ [], v))
  unfolding create interleave
  creation_turns user_id order_id w = elim (answer-cases (s.orders.get user_id order_id w)) [
    | inr (c, v, u) ↦ rw u refl
    | inl (o, v, u) ↦ elim (Bool-cases (str_eq o.status Order.status_pending)) [
      | inr e ↦ rw (u, e) refl
      | inl e ↦ elim (Bool-cases (is_positive (n.sign (n.mul o.quantity o.price)))) [
        | inr d ↦ rw (u, e, d) refl
        | inl d ↦
            elim (answer-cases
              (s.gateway.create_payment o.id (n.mul o.quantity o.price) default_currency v)) [
                | inr (c, v', k) ↦ rw (u, e, d, k) refl
                | inl (gw, v', k) ↦ elim (answer-cases (s.repo.create (requested o gw) v')) [
                  | inr (c, x, l) ↦ rw (u, e, d, k, l) refl
                  | inl (p, x, l) ↦
                      elim (answer-cases
                        (s.orders.update_status user_id o.id Order.status_pending_payment x)) [
                          | inr (c, y, m) ↦ rw (u, e, d, k, l, m) refl
                          | inl (b, y, m) ↦ rw (u, e, d, k, l, m) refl
                        ]
                ]
              ]
      ]
    ]
  ]

  -- The method that a request calls.
  abbrev pub method : Request → Exec S (Payment D)
  method (creation user_id order_id) = create s user_id order_id
  method (report reference status) = apply_provider_callback s reference status

  -- For any repository, order service and gateway, a creation or a callback that runs alone has
  -- returned after four turns, with the result and in the state that Create or
  -- ApplyProviderCallback gives.
  pub interleave_alone :
      (c : Request) (w : S)
      → interleave s (0 ∷ 0 ∷ 0 ∷ 0 ∷ []) (started c ∷ []) w
        ≡ (let (r, v) = method c w in (returned r ∷ [], v))
  interleave_alone (creation user_id order_id) w = creation_turns user_id order_id w
  interleave_alone (report reference status) w = callback_turns reference status w
