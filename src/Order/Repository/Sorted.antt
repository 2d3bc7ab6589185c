-- ===== src/Order/Repository/Sorted.antt =====
-- What a listing of orders holds, and in which order (internal/order/repository.go, List).
use mathlib.Core.List.{Perm}
use mathlib.Core.List.Perm
use order_mock_payment.Prelude.{ℕ, ◌≤◌, ◌≡◌, refl, List, [], ◌∷◌, leb, arith, Bool-cases, inl, inr}
use order_mock_payment.Go.Exec.{ok}
use order_mock_payment.Database.Table.{select}
use order_mock_payment.Database.Table.Unique.{All, All-weaken}
use order_mock_payment.Database.World.{World, Environment, Executes, ticked}
use order_mock_payment.Order.Model.{Order}
use order_mock_payment.Order.Repository.{
  insert_by_time, order_by_created_at_desc, list_orders_query, is_of_user, list,
}

module _ {D : Type 0} where
  -- Latest first.
  abbrev pub IsLatestFirst : List (Order D) → Type 0
  IsLatestFirst [] = Unit
  IsLatestFirst (o ∷ os) = All (λ p. p.created_at ≤ o.created_at) os × IsLatestFirst os

  insert_by_time-Perm : (o : Order D) (os : List (Order D)) → Perm (insert_by_time o os) (o ∷ os)
  unfolding insert_by_time
  insert_by_time-Perm o [] = Perm.refl _
  insert_by_time-Perm o (p ∷ ps) = elim (Bool-cases (leb p.created_at o.created_at)) [
    | inl e ↦ rw e (Perm.refl _)
    | inr e ↦ rw e (Perm.trans (Perm.cons p (insert_by_time-Perm o ps)) (Perm.swap _ _ _))
  ]

  order_by-Perm : (os : List (Order D)) → Perm (order_by_created_at_desc os) os
  unfolding order_by_created_at_desc
  order_by-Perm [] = Perm.refl _
  order_by-Perm (o ∷ os) =
      Perm.trans (insert_by_time-Perm o (order_by_created_at_desc os))
        (Perm.cons o (order_by-Perm os))

  insert-All :
      (P : Order D → Type 0) (o : Order D) (os : List (Order D))
      → P o
      → All P os
      → All P (insert_by_time o os)
  unfolding insert_by_time
  insert-All P o [] h a = (h, tt)
  insert-All P o (p ∷ ps) h a = elim (Bool-cases (leb p.created_at o.created_at)) [
    | inl e ↦ rw e (h, a)
    | inr e ↦ rw e (a.0, insert-All P o ps h a.1)
  ]

  insert-IsLatestFirst :
      (o : Order D) (os : List (Order D)) → IsLatestFirst os → IsLatestFirst (insert_by_time o os)
  unfolding insert_by_time
  insert-IsLatestFirst o [] s = (tt, tt)
  insert-IsLatestFirst o (p ∷ ps) s = elim (Bool-cases (leb p.created_at o.created_at)) [
    | inl e ↦ rw e ((ground arith, All-weaken _ _ ps (λ x h. ground arith) s.0), s)
    | inr e ↦ rw e (insert-All _ o ps (ground arith) s.0, insert-IsLatestFirst o ps s.1)
  ]

  order_by-IsLatestFirst : (os : List (Order D)) → IsLatestFirst (order_by_created_at_desc os)
  unfolding order_by_created_at_desc
  order_by-IsLatestFirst [] = tt
  order_by-IsLatestFirst (o ∷ os) = insert-IsLatestFirst o _ (order_by-IsLatestFirst os)

  -- When its statement is executed, a listing succeeds, holds exactly the caller's orders, each
  -- as often as it is stored, latest first, and changes no table.
  pub list-IsLatestFirst :
      (env : Environment) (w : World D) (user_id : ℕ)
      → Executes env w.statements
      → (os : List (Order D)) × (list env user_id w ≡ (ok os, ticked w))
        × Perm os (select (is_of_user user_id) w.orders)
        × IsLatestFirst os
  unfolding list list_orders_query
  list-IsLatestFirst env w user_id x = (
    order_by_created_at_desc (select (is_of_user user_id) w.orders),
    rw x.runs refl,
    order_by-Perm _,
    order_by-IsLatestFirst _,
  )
