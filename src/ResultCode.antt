-- ===== src/ResultCode.antt =====
-- libraries/lib_dd/include/dd/util/util_result.hpp and util_result_ukern.h: result codes as 32-bit
-- words. The `Bits` constants stand as masks in every one of these functions.
pub mod Collisions
mod Tests
use Prim.Native.Nat.{bit_and, bit_or}
use dd_framework.Base.{ℕ, ◌+◌, ◌*◌, ◌/◌, ◌%◌, ◌^◌}

abbrev pub module_bits : ℕ
module_bits = 9

abbrev pub description_bits : ℕ
description_bits = 13

unfoldable pub get_module : ℕ → ℕ
get_module result = bit_and result module_bits

unfoldable pub get_description : ℕ → ℕ
get_description result = bit_and (result / 2 ^ module_bits) description_bits

abbrev pub result_success : ℕ
result_success = 0

-- `DECLARE_RESULT` in the module that `DECLARE_RESULT_MODULE` names.
abbrev pub declare_result : ℕ → ℕ → ℕ
declare_result module_num description =
    bit_or (bit_and description description_bits * 2 ^ module_bits % 2 ^ 32)
      (bit_and module_num module_bits)

-- The results of ukern, module 1.
abbrev pub result_timeout : ℕ
result_timeout = declare_result 1 1

abbrev pub result_invalid_handle : ℕ
result_invalid_handle = declare_result 1 2

abbrev pub result_win32_error : ℕ
result_win32_error = declare_result 1 3

abbrev pub result_thread_storage_exhaustion : ℕ
result_thread_storage_exhaustion = declare_result 1 4

abbrev pub result_handle_exhaustion : ℕ
result_handle_exhaustion = declare_result 1 5

abbrev pub result_invalid_thread_function_pointer : ℕ
result_invalid_thread_function_pointer = declare_result 1 6

abbrev pub result_invalid_stack_size : ℕ
result_invalid_stack_size = declare_result 1 7

abbrev pub result_invalid_priority : ℕ
result_invalid_priority = declare_result 1 8

abbrev pub result_invalid_address : ℕ
result_invalid_address = declare_result 1 9

abbrev pub result_invalid_wait_address_value : ℕ
result_invalid_wait_address_value = declare_result 1 10

abbrev pub result_invalid_lock_address_value : ℕ
result_invalid_lock_address_value = declare_result 1 11

abbrev pub result_requires_lock : ℕ
result_requires_lock = declare_result 1 12

abbrev pub result_value_out_of_range : ℕ
result_value_out_of_range = declare_result 1 13

abbrev pub result_same_priority : ℕ
result_same_priority = declare_result 1 14

abbrev pub result_same_activity_level : ℕ
result_same_activity_level = declare_result 1 15

abbrev pub result_same_core_mask : ℕ
result_same_core_mask = declare_result 1 16

abbrev pub result_invalid_core_id : ℕ
result_invalid_core_id = declare_result 1 17

abbrev pub result_invalid_arbitration_type : ℕ
result_invalid_arbitration_type = declare_result 1 18

abbrev pub result_invalid_signal_type : ℕ
result_invalid_signal_type = declare_result 1 19

abbrev pub result_no_waiters : ℕ
result_no_waiters = declare_result 1 20
