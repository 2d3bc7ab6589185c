-- ===== src/Payment/Errors.antt =====
-- internal/payment/errors.go
use order_mock_payment.Go.Error.{Error, new}

abbrev pub err_order_not_found : Error
err_order_not_found = new 20 "order not found"

abbrev pub err_order_not_payable : Error
err_order_not_payable = new 21 "order is not in a payable state"

abbrev pub err_duplicate_payment : Error
err_duplicate_payment = new 22 "payment already exists for this order"

abbrev pub err_invalid_amount : Error
err_invalid_amount = new 23 "payment amount must be greater than 0"

abbrev pub err_payment_not_found : Error
err_payment_not_found = new 24 "payment not found"

abbrev pub err_invalid_status_transition : Error
err_invalid_status_transition = new 25 "invalid payment status transition"
