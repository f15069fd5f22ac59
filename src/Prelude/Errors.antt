-- ===== src/Prelude/Errors.antt =====
-- `enum aws_common_error` of include/aws/common/error.h, and the outcome of a fallible call: a value,
-- or `AWS_OP_ERR` with the code that `aws_raise_error` has set.

pub data Error : Type 0 where
  success oom no_space unknown short_buffer overflow_detected unsupported_operation : Error
  invalid_buffer_size invalid_hex_str invalid_base64_str invalid_index : Error
  thread_invalid_settings thread_insufficient_resource thread_no_permissions : Error
  thread_not_joinable thread_no_such_thread_id thread_deadlock_detected : Error
  mutex_not_init mutex_timeout mutex_caller_not_owner mutex_failed : Error
  cond_variable_init_failed cond_variable_timed_out cond_variable_error_unknown : Error
  clock_failure list_empty dest_copy_too_small list_exceeds_max_size : Error
  list_static_mode_cant_shrink priority_queue_full priority_queue_empty : Error
  priority_queue_bad_node hashtbl_item_not_found invalid_date_str invalid_argument : Error
  random_gen_failed malformed_input_string unimplemented invalid_state : Error
  environment_get environment_set environment_unset stream_unseekable no_permission : Error
  file_invalid_path max_fds_exceeded sys_call_failure : Error
  c_string_buffer_not_null_terminated string_match_not_found divide_by_zero : Error
  invalid_file_handle operation_interupted directory_not_empty platform_not_supported : Error

pub data Result {ℓ} (A : Type ℓ) : Type ℓ where
  ok : A → Result A
  err : Error → Result A

infixl 5 ◌>>=◌
abbrev pub ◌>>=◌ {ℓ κ} : {A : Type ℓ} {B : Type κ} → Result A → (A → Result B) → Result B
ok a >>= f = f a
err e >>= f = err e

-- A call that fails with its state as it is, or goes on with a value.
abbrev pub bail {ℓ κ} :
    {S : Type ℓ} {A : Type κ} → S → Result A → (A → S × Result (Unit {0})) → S × Result (Unit {0})
bail s (ok a) k = k a
bail s (err e) k = (s, err e)

-- One call after another.
abbrev pub and_then {ℓ} :
    {S : Type ℓ} → S × Result (Unit {0}) → (S → S × Result (Unit {0})) → S × Result (Unit {0})
and_then (s, ok u) k = k s
and_then (s, err e) k = (s, err e)
