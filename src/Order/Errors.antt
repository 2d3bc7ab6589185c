-- ===== src/Order/Errors.antt =====
-- internal/order/errors.go
use order_mock_payment.Go.Error.{Error, new}

abbrev pub err_invalid_symbol : Error
err_invalid_symbol = new 10 "symbol is required, uppercase, and at most 20 characters"

abbrev pub err_invalid_side : Error
err_invalid_side = new 11 "side must be BUY or SELL"

abbrev pub err_invalid_quantity : Error
err_invalid_quantity = new 12 "quantity must be greater than 0"

abbrev pub err_invalid_price : Error
err_invalid_price = new 13 "price must be greater than or equal to 0"

abbrev pub err_order_not_found : Error
err_order_not_found = new 14 "order not found"
