-- ===== src/FileDevice/Results.antt =====
-- libraries/lib_dd/include/dd/util/util_result_res.h: the results of module 6.
use dd_framework.Base.{ℕ}
use dd_framework.ResultCode.{declare_result}

abbrev res : ℕ → ℕ
res description = declare_result 6 description

abbrev pub result_unknown_win32_error : ℕ
result_unknown_win32_error = res 1

abbrev pub result_file_not_found : ℕ
result_file_not_found = res 2

abbrev pub result_path_not_found : ℕ
result_path_not_found = res 3

abbrev pub result_path_too_long : ℕ
result_path_too_long = res 4

abbrev pub result_file_sharing_violation : ℕ
result_file_sharing_violation = res 5

abbrev pub result_file_lock_violation : ℕ
result_file_lock_violation = res 6

abbrev pub result_open_file_exhaustion : ℕ
result_open_file_exhaustion = res 7

abbrev pub result_invalid_buffer_size : ℕ
result_invalid_buffer_size = res 8

abbrev pub result_invalid_read_div_alignment : ℕ
result_invalid_read_div_alignment = res 9

abbrev pub result_invalid_file_buffer_size : ℕ
result_invalid_file_buffer_size = res 10

abbrev pub result_invalid_handle : ℕ
result_invalid_handle = res 11

abbrev pub result_invalid_null_path : ℕ
result_invalid_null_path = res 12

abbrev pub result_invalid_open_mode : ℕ
result_invalid_open_mode = res 13

abbrev pub result_invalid_size : ℕ
result_invalid_size = res 14

abbrev pub result_null_handle : ℕ
result_null_handle = res 15

abbrev pub result_null_out_buffer : ℕ
result_null_out_buffer = res 16

abbrev pub result_null_path : ℕ
result_null_path = res 17

abbrev pub result_file_size_retrieval_failed : ℕ
result_file_size_retrieval_failed = res 18

abbrev pub result_resource_allocation_failed : ℕ
result_resource_allocation_failed = res 19
