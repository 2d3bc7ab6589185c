-- ===== src/Webhook/Errors.antt =====
-- internal/webhook/errors.go
use order_mock_payment.Go.Error.{Error, new}

abbrev pub err_invalid_signature : Error
err_invalid_signature = new 60 "invalid signature"

abbrev pub err_invalid_request : Error
err_invalid_request = new 61 "invalid webhook request"

abbrev pub err_invalid_status : Error
err_invalid_status = new 62 "unsupported webhook status"
