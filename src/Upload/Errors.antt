-- ===== src/Upload/Errors.antt =====
-- internal/upload/errors.go
use order_mock_payment.Go.Error.{Error, new}

abbrev pub err_order_not_found : Error
err_order_not_found = new 40 "order not found"

abbrev pub err_empty_file : Error
err_empty_file = new 41 "uploaded file is empty"

abbrev pub err_file_too_large : Error
err_file_too_large = new 42 "uploaded file exceeds maximum size"

abbrev pub err_unsupported_content_type : Error
err_unsupported_content_type = new 43 "unsupported file type"

abbrev pub err_upload_not_found : Error
err_upload_not_found = new 44 "upload not found"

abbrev pub err_invalid_storage_path : Error
err_invalid_storage_path = new 45 "invalid storage path"
