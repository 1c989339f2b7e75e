-- ===== src/Web/Codes.antt =====
-- cmd/modapi/codes/dict.go
use walletus.Base.{ℕ}

abbrev pub success : ℕ
success = 0

abbrev pub err_method_unsupport : ℕ
err_method_unsupport = 1

abbrev pub err_reqformat : ℕ
err_reqformat = 2

abbrev pub err_appid_invalid : ℕ
err_appid_invalid = 3

abbrev pub err_sigmethod_unsupp : ℕ
err_sigmethod_unsupp = 4

abbrev pub err_authtoken_fail : ℕ
err_authtoken_fail = 5

abbrev pub err_exist_obj : ℕ
err_exist_obj = 7

abbrev pub err_obj_not_found : ℕ
err_obj_not_found = 9

abbrev pub err_security : ℕ
err_security = 15

abbrev pub err_repeat : ℕ
err_repeat = 17

abbrev pub err_status_general : ℕ
err_status_general = 19

abbrev pub err_permission : ℕ
err_permission = 20

abbrev pub err_unknown : ℕ
err_unknown = 900
