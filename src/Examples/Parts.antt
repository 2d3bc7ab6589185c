-- ===== src/Examples/Parts.antt =====
-- The theorems on single components, at concrete inputs.
use mathlib.Core.List.{Perm}
use order_mock_payment.Prelude.{
  refl, false, none, ℕ, suc, ◌≡◌, ◌≢◌, ◌⊎◌, Option, some, List, [], ◌∷◌, ◌++◌, arith,
}
use order_mock_payment.Go.Error.{Error}
use order_mock_payment.Go.Exec.{ok, err, Exec}
use order_mock_payment.Payment.Gateway.References.{reference_of-distinct}
use order_mock_payment.Payment.Gateway.{reference_of}
use order_mock_payment.Text.{Text, codes, text_eq}
use order_mock_payment.Database.Table.{select}
use order_mock_payment.Database.World.{ticked}
use order_mock_payment.Order.Model.{Order}
use order_mock_payment.Order.Service.{OrderRequest}
use order_mock_payment.Order.Service as OrderModule
use order_mock_payment.Order.Service.Validation.{IsAcceptable, IsRefusal, create-validates}
use order_mock_payment.Order.Repository.{is_of_user}
use order_mock_payment.Order.Repository as OrderRepo
use order_mock_payment.Order.Repository.Sorted.{IsLatestFirst, list-IsLatestFirst}
use order_mock_payment.System.Wiring.{order_repo}
use order_mock_payment.Webhook.Hex.{decode_string, digit}
use order_mock_payment.Webhook.Service.{
  new_service, hmac_verifier, CallbackRequest, PaymentService, process,
}
use order_mock_payment.Webhook.Service.Authentic.{IsSigned, IsApplicable, process-authentic}
use order_mock_payment.Http.{Context, failure}
use order_mock_payment.Webhook.Handler.{callback}
use order_mock_payment.Webhook.Handler.Forged.{callback-forged}
use order_mock_payment.Examples.Data.{whole, ascii, world, request, faultless, executes}

create-validates_example :
    (IsAcceptable request
      × (OrderModule.create (order_repo faultless) 1 request world
          ≡ (order_repo faultless).create (OrderModule.new_order 1 request) world))
    ⊎ ((e : Error) × IsRefusal request e
        × (OrderModule.create (order_repo faultless) 1 request world ≡ (err e, world)))
create-validates_example = create-validates (order_repo faultless) 1 request world

list-IsLatestFirst_example :
    (os : List (Order ℕ)) × (OrderRepo.list faultless 1 world ≡ (ok os, ticked world))
    × Perm os (select (is_of_user 1) world.orders)
    × IsLatestFirst os
list-IsLatestFirst_example = list-IsLatestFirst faultless world 1 (executes 0)

-- The last number of six digits, and the first of seven.
abbrev last_of_six : ℕ
last_of_six = 999999

reference_of-distinct_example : reference_of last_of_six ≢ reference_of (suc last_of_six)
reference_of-distinct_example =
    reference_of-distinct last_of_six (suc last_of_six) (omega arith) (omega arith) (omega arith)

-- A code that is the payload behind the secret, and a payload that asks for payment "PAY-000002".
abbrev joined : Text → Text → Text
joined secret payload = secret ++ payload

abbrev read : Text → Option CallbackRequest
read payload = some (record { provider_reference = codes "PAY-000002"; status = "paid" })

-- Payments that count the callbacks they have accepted.
abbrev counter : PaymentService ℕ ℕ
counter = record { apply_provider_callback = λ reference status s. (ok s, suc s) }

abbrev handled : Exec ℕ (Unit {0})
handled =
    process (new_service (hmac_verifier joined (1 ∷ [])) counter) read (171 ∷ []) (codes "01aB")

handled_changes : (handled 0).1 ≢ 0
unfolding process decode_string text_eq
handled_changes e = omega arith

process-authentic_example :
    (req : CallbackRequest) × IsSigned joined (1 ∷ []) (171 ∷ []) (codes "01aB")
    × (read (171 ∷ []) ≡ some req)
    × IsApplicable req
    × ((handled 0).1 ≡ 1)
process-authentic_example =
    process-authentic joined (1 ∷ []) read counter (171 ∷ []) (codes "01aB") 0 handled_changes

-- The same payload, with a signature that is not hexadecimal.
abbrev forged : Context
forged = record {
  claims = none;
  content_type = [];
  authorization = [];
  signature = codes "01az";
  id = [];
  body = 171 ∷ [];
  unreadable = false;
}

forged-unsigned : IsSigned joined (1 ∷ []) forged.body forged.signature → ⊥
unfolding decode_string digit
forged-unsigned e = cc

callback-forged_example :
    callback (process (new_service (hmac_verifier joined (1 ∷ [])) counter) read) forged 0
    ≡ (failure 401 "INVALID_SIGNATURE" "invalid signature", 0)
callback-forged_example = callback-forged joined (1 ∷ []) read counter forged 0 refl forged-unsigned
