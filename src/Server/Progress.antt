-- ===== src/Server/Progress.antt =====
-- A signed callback, after any requests (internal/webhook behind internal/server).
use order_mock_payment.Prelude.{ℕ, suc, String, ◌≡◌, refl, false, some, List}
use order_mock_payment.Go.Exec.{ok}
use order_mock_payment.Text.{Unicode, is_empty}
use order_mock_payment.Numeric.{Numeric}
use order_mock_payment.Database.Table.{find, find_from}
use order_mock_payment.Database.World.{World, Environment, Executes}
use order_mock_payment.Http.{Context, success}
use order_mock_payment.Order.Model.{Order}
use order_mock_payment.Order.Repository.{has_id}
use order_mock_payment.Order.Repository as OrderRepo
use order_mock_payment.Payment.Model.{Payment, status_pending}
use order_mock_payment.Payment.Repository.{payment_has_id, has_reference, set_status}
use order_mock_payment.Webhook.Service.{CallbackRequest, verify, process}
use order_mock_payment.Webhook.Service.Authentic.{IsSettling, settling_test}
use order_mock_payment.Webhook.Handler as WebhookHandler
use order_mock_payment.Schema.Defs.{Schema}
use order_mock_payment.System.Callback.{Matches, callback-settles_both}
use order_mock_payment.Server.{Inputs}
use order_mock_payment.Server.Routes.{serve_all, webhook_service}
use order_mock_payment.Server.Refines.{serve_all-Schema}

module _ {D : Type 0} ⦃u : Unicode⦄ ⦃n : Numeric D⦄ (env : Environment) (inputs : Inputs D)
    (v : World D) (schema : Schema v.tables) (c : Context) (req : CallbackRequest)
    (readable : c.unreadable ≡ false)
    (signed : verify inputs.mac inputs.webhook_secret c.body c.signature ≡ ok tt)
    (decoded : inputs.unmarshal c.body ≡ some req) (named : is_empty req.provider_reference ≡ false)
    (settling : IsSettling req.status) {p : Payment D} {o : Order D}
    (found : find_from (env.start v.statements) (has_reference req.provider_reference) v.payments
      ≡ some p)
    (pending : p.status ≡ status_pending) (known : find (has_id p.order_id) v.orders ≡ some o)
    (x0 : Executes env v.statements) (x1 : Executes env (suc v.statements))
    (x2 : Executes env (suc (suc v.statements))) where
  callback-settles :
      let (r, z) =
        WebhookHandler.callback (process (webhook_service env inputs) inputs.unmarshal) c v in
      (r ≡ success 200 tt)
      × (find (payment_has_id p.id) z.payments
          ≡ some (set_status req.status (env.now (suc v.statements)) p))
      × ((order_status : String) × Matches req.status order_status
          × (find (has_id p.order_id) z.orders
              ≡ some (OrderRepo.set_status order_status (env.now (suc (suc v.statements))) o)))
  unfolding WebhookHandler.callback process
  callback-settles =
      let (answer, paid, ordered) =
        callback-settles_both env req.provider_reference req.status v settling found x0 schema
          pending x1 known x2 in
      rw (readable, signed, decoded, named, settling_test req.status settling, answer)
        (refl, paid, ordered)

module _ {D : Type 0} ⦃u : Unicode⦄ ⦃n : Numeric D⦄ (env : Environment) (inputs : Inputs D)
    (rs : List (ℕ × Context)) (w : World D) where
  -- The state after the requests.
  abbrev pub later : World D
  later = serve_all env inputs rs w

  -- Begin with tables that keep the schema and let any requests be served, with whatever faults
  -- of the database. If a payment is then still pending and its order is stored, a callback whose
  -- body is read, that is signed, names a reference by which it finds this payment and the status
  -- "paid" or "failed", and has its three statements executed, is answered with the status 200;
  -- the payment's row has that status and the order has the one that goes with it.
  pub callback-progresses :
      (c : Context) (req : CallbackRequest) (p : Payment D) (o : Order D)
      → Schema w.tables
      → c.unreadable ≡ false
      → verify inputs.mac inputs.webhook_secret c.body c.signature ≡ ok tt
      → inputs.unmarshal c.body ≡ some req
      → is_empty req.provider_reference ≡ false
      → IsSettling req.status
      → find_from (env.start later.statements) (has_reference req.provider_reference) later.payments
        ≡ some p
      → p.status ≡ status_pending
      → find (has_id p.order_id) later.orders ≡ some o
      → Executes env later.statements
      → Executes env (suc later.statements)
      → Executes env (suc (suc later.statements))
      → let (r, z) =
          WebhookHandler.callback (process (webhook_service env inputs) inputs.unmarshal) c later in
        (r ≡ success 200 tt)
        × (find (payment_has_id p.id) z.payments
            ≡ some (set_status req.status (env.now (suc later.statements)) p))
        × ((order_status : String) × Matches req.status order_status
            × (find (has_id p.order_id) z.orders
                ≡ some
                    (OrderRepo.set_status order_status (env.now (suc (suc later.statements))) o)))
  callback-progresses c req p o schema readable signed decoded named settling found pending known x0
        x1 x2 =
      callback-settles env inputs later (serve_all-Schema env inputs rs w schema) c req readable
        signed decoded named settling found pending known x0 x1 x2
