-- ===== src/Errors.antt =====
-- The error type of the crate (src/error.rs), the vendors' own (src/ibm/error.rs,
-- src/pasqal/error.rs), the kinds by which the bindings tell errors apart, and the numeric codes
-- of the C binding (src/cext.rs).
pub mod Kinds
use qrmi.Prelude.{ℕ, List, [], ◌∷◌, String}
use qrmi.Text.{Text, codes}
use qrmi.Models.{Payload}

-- A formatted message is the list of its pieces. How `{:?}` prints a value is not modelled: such a
-- piece holds the value.
pub data Piece : Type 0 where
  text : Text → Piece
  debug : Text → Piece
  debug_list : List Text → Piece
  -- an HTTP status, printed as its number and its name
  status_line : ℕ → Piece

abbrev pub Message : Type 0
Message = List Piece

abbrev pub plain : String → Message
plain s = text (codes s) ∷ []

-- src/ibm/error.rs
pub data IbmError : Type 0 where
  unknown_program_id : Message → IbmError
  invalid_session_mode : Text → IbmError

-- src/pasqal/error.rs
pub data PasqalError : Type 0 where
  invalid_device_type : Message → PasqalError
  invalid_cudaq_sequence : Text → PasqalError

-- src/error.rs; a source error that is only carried along is its message, and an unsupported
-- payload, which the code prints, is the payload itself.
pub data QrmiError : Type 0 where
  env_var_not_set : Text → QrmiError
  parse_error : Text → Text → QrmiError
  unsupported_resource_type : Text → QrmiError
  unsupported_payload : Payload → QrmiError
  unsupported_function : Text → QrmiError
  task_not_ready : Text → Message → QrmiError
  missing_config_key : Text → QrmiError
  invalid_config : Message → QrmiError
  resource_not_found : Text → QrmiError
  task_not_found : Text → QrmiError
  authentication_failed : Text → QrmiError
  invalid_input : Message → QrmiError
  invalid_json : Text → QrmiError
  invalid_utf8 : Text → QrmiError
  ibm : IbmError → QrmiError
  pasqal : PasqalError → QrmiError
  other : Message → QrmiError

pub data QrmiErrorKind : Type 0 where
  env_var_not_set parse_error unsupported_resource_type unsupported_payload : QrmiErrorKind
  unsupported_function task_not_ready missing_config_key invalid_config : QrmiErrorKind
  resource_not_found task_not_found authentication_failed invalid_input other : QrmiErrorKind
