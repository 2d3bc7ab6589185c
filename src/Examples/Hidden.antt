-- ===== src/Examples/Hidden.antt =====
-- What user 1 learns of order 9, which is user 2's.
use order_mock_payment.Prelude.{◌≡◌, refl, inr, arith}
use order_mock_payment.Go.Exec.{err}
use order_mock_payment.Text.{len}
use order_mock_payment.Database.Table.{find}
use order_mock_payment.Database.World.{ticked}
use order_mock_payment.Order.Service as OrderModule
use order_mock_payment.Order.Service.Validation.{IsAcceptable}
use order_mock_payment.Order.Errors as OrderErrors
use order_mock_payment.Payment.Service as PaymentModule
use order_mock_payment.Payment.Errors as PaymentErrors
use order_mock_payment.System.Wiring.{order_repo, payment_service}
use order_mock_payment.System.Hidden.{order-hidden}
use order_mock_payment.Examples.Data.{whole, ascii, world, request, faultless, executes}

pub request-IsAcceptable : IsAcceptable request
unfolding len
request-IsAcceptable = ((λ e. cc, omega arith, refl), inr refl, refl, λ e. cc)

order-hidden_example :
    (OrderModule.get (order_repo faultless) 1 9 world
      ≡ (err OrderErrors.err_order_not_found, ticked world))
    × (OrderModule.update (order_repo faultless) 1 9 request world
        ≡ (err OrderErrors.err_order_not_found, ticked world))
    × (OrderModule.delete (order_repo faultless) 1 9 world
        ≡ (err OrderErrors.err_order_not_found, ticked world))
    × (PaymentModule.create (payment_service faultless) 1 9 world
        ≡ (err PaymentErrors.err_order_not_found, ticked world))
unfolding find
order-hidden_example =
    order-hidden faultless world 1 9 refl (executes 0) request request-IsAcceptable
