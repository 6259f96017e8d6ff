-- ===== src/ResultCode/Tests.antt =====
-- The result codes that collide, at concrete descriptions.
use dd_framework.Base.{◌≡◌, refl}
use dd_framework.ResultCode.{result_timeout, result_win32_error}

timeout_is_win32_error : result_timeout ≡ result_win32_error
timeout_is_win32_error = refl
