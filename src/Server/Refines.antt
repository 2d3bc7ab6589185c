-- ===== src/Server/Refines.antt =====
-- Every route against the calls of the services.
use mathlib.Core.Path.{subst}
use order_mock_payment.Schema.Defs.{Schema}
use order_mock_payment.System.Schema.{run-Schema}
use order_mock_payment.Prelude.{
  ◌≢◌, ℕ, zero, suc, ◌≡◌, ◌⊎◌, inl, inr, refl, List, [], ◌∷◌, sym, ap, ◌∙◌,
}
use order_mock_payment.Text.{Unicode}
use order_mock_payment.Numeric.{Numeric}
use order_mock_payment.Database.World.{World, Environment}
use order_mock_payment.Database.Table.Unique.{All}
use order_mock_payment.Http.{Context}
use order_mock_payment.System.Calls.{Call, restart, step, run}
use order_mock_payment.Server.{Inputs, Body, Route, nth}
use order_mock_payment.Server.Routes.{routes, serve, serve_all, effect}
use order_mock_payment.Server.Effects.{Refines, authenticated, MadeBy, Signed}
use order_mock_payment.Server.OpenRoutes.{
  signup-Refines, login-Refines, callback-Refines, readyz-Refines,
}
use order_mock_payment.Server.TokenRoutes.{
  create_order-Refines, list_orders-Refines, get_order-Refines, update_order-Refines,
  delete_order-Refines, create_payment-Refines, get_payment-Refines, create_upload-Refines,
  get_upload-Refines,
}

module _ {D : Type 0} ⦃u : Unicode⦄ ⦃n : Numeric D⦄ (env : Environment) (inputs : Inputs D)
    (c : Context) (w : World D) where
  routes-Refine : All (λ r. Refines env inputs c w (r.handler c w).1) (routes env inputs)
  routes-Refine = (
    inl refl,
    (
      inl refl,
      (
        readyz-Refines env inputs c w (inputs.ping_postgres w.statements)
            (inputs.ping_redis w.statements),
        (
          signup-Refines env inputs c w,
          (
            login-Refines env inputs c w,
            (
              create_order-Refines env inputs c w,
              (
                list_orders-Refines env inputs c w,
                (
                  get_order-Refines env inputs c w,
                  (
                    update_order-Refines env inputs c w,
                    (
                      delete_order-Refines env inputs c w,
                      (
                        create_payment-Refines env inputs c w,
                        (
                          get_payment-Refines env inputs c w,
                          (
                            create_upload-Refines env inputs c w,
                            (
                              get_upload-Refines env inputs c w,
                              (callback-Refines env inputs c w, tt),
                            ),
                          ),
                        ),
                      ),
                    ),
                  ),
                ),
              ),
            ),
          ),
        ),
      ),
    ),
  )

  effect-Refines :
      (rs : List (Route (World D) (Body D)))
      → All (λ r. Refines env inputs c w (r.handler c w).1) rs
      → (i : ℕ) → Refines env inputs c w (effect env inputs (nth i rs) c w)
  effect-Refines [] a i = inl refl
  effect-Refines (r ∷ rs) a zero = a.0
  effect-Refines (r ∷ rs) a (suc i) = effect-Refines rs a.1 i

  -- For every request and every registered route that gin may give it to, and for no route:
  -- either the request leaves the state as it was, or it does to it what one call of a service
  -- does; that call is no restart; if it is made for a user, the user is the one whom the bearer
  -- token of the request names at that time; and if it is a callback of the provider, the
  -- signature of the request is verified against its body.
  pub serve-Refines :
      (i : ℕ)
      → (serve env inputs i c w ≡ w)
        ⊎ ((k : Call D) × (MadeBy env (authenticated env c w) k
              × Signed env inputs c k
              × (k ≢ restart))
            × (serve env inputs i c w ≡ step env k w))
  unfolding serve
  serve-Refines i = effect-Refines (routes env inputs) routes-Refine i

module _ {D : Type 0} ⦃u : Unicode⦄ ⦃n : Numeric D⦄ (env : Environment) (inputs : Inputs D) where
  -- What any sequence of requests to the routes does to the state is what some sequence of calls
  -- of the services does to it.
  pub serve_all-run :
      (rs : List (ℕ × Context)) (w : World D)
      → (cs : List (Call D)) × (serve_all env inputs rs w ≡ run env cs w)
  unfolding serve_all run
  serve_all-run [] w = ([], refl)
  serve_all-run ((i, c) ∷ rs) w =
      let (cs, e) = serve_all-run rs (serve env inputs i c w) in
      elim (serve-Refines env inputs c w i) [
        | inl same ↦ (cs, e ∙ ap (run env cs) same)
        | inr (k, made, same) ↦ (k ∷ cs, e ∙ ap (run env cs) same)
      ]

  -- From tables that keep the schema, any sequence of requests to the routes leads to tables that
  -- keep it, whatever the requests hold and the environment answers.
  pub serve_all-Schema :
      (rs : List (ℕ × Context)) (w : World D)
      → Schema w.tables
      → Schema (serve_all env inputs rs w).tables
  serve_all-Schema rs w s =
      let (cs, e) = serve_all-run rs w in
      subst (λ (v : World D). Schema v.tables) (sym e) (run-Schema env cs w s)
