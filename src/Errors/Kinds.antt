-- ===== src/Errors/Kinds.antt =====
-- `QrmiError::kind`, and the C binding's return codes (src/cext.rs).
use qrmi.Prelude.{ℕ, ◌≡◌, refl, Option, none, some, if◌then◌else◌, ◌==◌}
use qrmi.Errors.{
  IbmError, unknown_program_id, invalid_session_mode, PasqalError, invalid_device_type,
  invalid_cudaq_sequence, QrmiError, QrmiErrorKind,
}

unfoldable pub kind_ibm : IbmError → QrmiErrorKind
kind_ibm (unknown_program_id _) = QrmiErrorKind.invalid_input
kind_ibm (invalid_session_mode _) = QrmiErrorKind.invalid_input

unfoldable pub kind_pasqal : PasqalError → QrmiErrorKind
kind_pasqal (invalid_device_type _) = QrmiErrorKind.invalid_input
kind_pasqal (invalid_cudaq_sequence _) = QrmiErrorKind.invalid_input

unfoldable pub kind : QrmiError → QrmiErrorKind
unfolding kind_ibm kind_pasqal
kind (QrmiError.env_var_not_set _) = QrmiErrorKind.env_var_not_set
kind (QrmiError.parse_error _ _) = QrmiErrorKind.parse_error
kind (QrmiError.unsupported_resource_type _) = QrmiErrorKind.unsupported_resource_type
kind (QrmiError.unsupported_payload _) = QrmiErrorKind.unsupported_payload
kind (QrmiError.unsupported_function _) = QrmiErrorKind.unsupported_function
kind (QrmiError.task_not_ready _ _) = QrmiErrorKind.task_not_ready
kind (QrmiError.missing_config_key _) = QrmiErrorKind.missing_config_key
kind (QrmiError.invalid_config _) = QrmiErrorKind.invalid_config
kind (QrmiError.resource_not_found _) = QrmiErrorKind.resource_not_found
kind (QrmiError.task_not_found _) = QrmiErrorKind.task_not_found
kind (QrmiError.authentication_failed _) = QrmiErrorKind.authentication_failed
kind (QrmiError.invalid_input _) = QrmiErrorKind.invalid_input
kind (QrmiError.invalid_json _) = QrmiErrorKind.invalid_input
kind (QrmiError.invalid_utf8 _) = QrmiErrorKind.invalid_input
kind (QrmiError.ibm e) = kind_ibm e
kind (QrmiError.pasqal e) = kind_pasqal e
kind (QrmiError.other _) = QrmiErrorKind.other

pub data ReturnCode : Type 0 where
  success error null_pointer_error env_var_not_set_error parse_error : ReturnCode
  unsupported_resource_type_error unsupported_function_error unsupported_payload_error : ReturnCode
  task_not_ready_error missing_config_key_error invalid_input_error : ReturnCode
  resource_not_found_error task_not_found_error authentication_failed_error : ReturnCode
  invalid_config_error : ReturnCode

-- The discriminants.
unfoldable pub number : ReturnCode → ℕ
number ReturnCode.success = 0
number ReturnCode.error = 100
number ReturnCode.null_pointer_error = 101
number ReturnCode.env_var_not_set_error = 102
number ReturnCode.parse_error = 103
number ReturnCode.unsupported_resource_type_error = 104
number ReturnCode.unsupported_function_error = 105
number ReturnCode.unsupported_payload_error = 106
number ReturnCode.task_not_ready_error = 107
number ReturnCode.missing_config_key_error = 108
number ReturnCode.invalid_input_error = 109
number ReturnCode.resource_not_found_error = 111
number ReturnCode.task_not_found_error = 112
number ReturnCode.authentication_failed_error = 113
number ReturnCode.invalid_config_error = 114

-- `From<QrmiErrorKind> for ReturnCode`.
unfoldable pub return_code : QrmiErrorKind → ReturnCode
return_code QrmiErrorKind.env_var_not_set = ReturnCode.env_var_not_set_error
return_code QrmiErrorKind.parse_error = ReturnCode.parse_error
return_code QrmiErrorKind.unsupported_resource_type = ReturnCode.unsupported_resource_type_error
return_code QrmiErrorKind.unsupported_payload = ReturnCode.unsupported_payload_error
return_code QrmiErrorKind.unsupported_function = ReturnCode.unsupported_function_error
return_code QrmiErrorKind.task_not_ready = ReturnCode.task_not_ready_error
return_code QrmiErrorKind.missing_config_key = ReturnCode.missing_config_key_error
return_code QrmiErrorKind.invalid_config = ReturnCode.invalid_config_error
return_code QrmiErrorKind.resource_not_found = ReturnCode.resource_not_found_error
return_code QrmiErrorKind.task_not_found = ReturnCode.task_not_found_error
return_code QrmiErrorKind.authentication_failed = ReturnCode.authentication_failed_error
return_code QrmiErrorKind.invalid_input = ReturnCode.invalid_input_error
return_code QrmiErrorKind.other = ReturnCode.error

-- The kind that a C caller reads off a number.
kind_of : ℕ → Option QrmiErrorKind
kind_of n =
    if n == 100
    then some QrmiErrorKind.other
    else if n == 102
    then some QrmiErrorKind.env_var_not_set
    else if n == 103
    then some QrmiErrorKind.parse_error
    else if n == 104
    then some QrmiErrorKind.unsupported_resource_type
    else if n == 105
    then some QrmiErrorKind.unsupported_function
    else if n == 106
    then some QrmiErrorKind.unsupported_payload
    else if n == 107
    then some QrmiErrorKind.task_not_ready
    else if n == 108
    then some QrmiErrorKind.missing_config_key
    else if n == 109
    then some QrmiErrorKind.invalid_input
    else if n == 111
    then some QrmiErrorKind.resource_not_found
    else if n == 112
    then some QrmiErrorKind.task_not_found
    else if n == 113
    then some QrmiErrorKind.authentication_failed
    else if n == 114
    then some QrmiErrorKind.invalid_config
    else none

kind_of-number : (k : QrmiErrorKind) → kind_of (number (return_code k)) ≡ some k
unfolding kind_of number return_code
kind_of-number QrmiErrorKind.other = refl
kind_of-number _ = refl

-- Two errors reach a C caller as one number only if they are of one kind: the return code of a
-- failed call tells the kind of the error apart from every other, those of the vendors' errors
-- included.
return_code_injective :
    (e f : QrmiError)
    → number (return_code (kind e)) ≡ number (return_code (kind f))
    → kind e ≡ kind f
return_code_injective e f h = cc (kind_of-number (kind e), kind_of-number (kind f), h)
