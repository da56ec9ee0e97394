-- ===== src/Maestro/Socket.antt =====
-- The exchange of a command and a reply over the socket (dependencies/maestro_rust_library/src/lib.rs).
use qrmi.Prelude.{
  ℕ, ◌+◌, ◌*◌, Bool, true, false, not, ◌||◌, ◌&&◌, Option, none, some, List, [], ◌∷◌, ◌++◌, ltb,
  if◌then◌else◌, is_empty,
}
use qrmi.Text.{Text, codes, eq_text, trim, strip_prefix, len_utf8, ends_with, split_whitespace}
use qrmi.Result.{Result, ok, err}
use qrmi.Exec.{Exec}

-- The operating system, on a world `V`, and how `{:?}` prints a text. `transfer` connects to the
-- socket, waits for the reply at most the milliseconds given, writes the command, and reads a line of
-- at most the bytes given.
pub record Socket (V : Type 0) : Type 0 where
  pub transfer : ℕ → ℕ → Text → Exec V Text Text
  pub socket_path : Text
  pub debug : Text → Text

pub data Response : Type 0 where
  ok_flag : Bool → Response
  error : Text → Response
  ok_response : Text → Response

abbrev pub max_result_bytes : ℕ
max_result_bytes = 64 * 1024 * 1024 + 64 * 1024

abbrev pub max_response_bytes : ℕ
max_response_bytes = max_result_bytes + 4096

abbrev reply_timeout_ms : ℕ
reply_timeout_ms = 15000

abbrev cleanup_reply_timeout_ms : ℕ
cleanup_reply_timeout_ms = 60000

abbrev pub is_cleanup : List Text → Bool
is_cleanup (a ∷ _ ∷ b ∷ []) = eq_text a (codes "SESSION") && eq_text b (codes "DELETE")
is_cleanup (a ∷ _ ∷ b ∷ _ ∷ c ∷ []) =
    eq_text a (codes "SESSION") && eq_text b (codes "TASK") && eq_text c (codes "CANCEL")
is_cleanup _ = false

unfoldable pub reply_timeout : Text → ℕ
unfolding eq_text split_whitespace
reply_timeout command =
    if is_cleanup (split_whitespace command) then cleanup_reply_timeout_ms else reply_timeout_ms

abbrev pub accepted_line : Text → Result Text Text
accepted_line response =
    if is_empty response
    then err (codes "server closed the connection without a response")
    else if ltb max_response_bytes (len_utf8 response) || not (ends_with b'\n' response)
    then err (codes "Oversized or truncated Maestro response")
    else ok response

abbrev pub ok_value : Text → Response
ok_value value =
    if eq_text value (codes "YES") || is_empty value
    then ok_flag true
    else if eq_text value (codes "NO")
    then ok_flag false
    else ok_response value

module _ {V : Type 0} (socket : Socket V) where
  abbrev received : Result Text Text × V → Result Text Text × V
  received (err e, v) = (err e, v)
  received (ok response, v) = (accepted_line response, v)

  unfoldable pub exchange : Text → Exec V Text Text
  unfolding reply_timeout len_utf8 ends_with
  exchange command v =
      received (socket.transfer (reply_timeout command) (max_response_bytes + 1) command v)

  abbrev error_of : Text → Option Text → Response
  error_of response (some rest) = error (trim rest)
  error_of response none = error (codes "Unexpected response: " ++ socket.debug response)

  abbrev reply_of : Text → Option Text → Response
  reply_of response (some rest) = ok_value (trim rest)
  reply_of response none = error_of response (strip_prefix (codes "ERROR ") response)

  unfoldable pub parse_response : Text → Response
  unfolding trim strip_prefix eq_text
  parse_response response =
      let trimmed = trim response in
      if eq_text trimmed (codes "OK")
      then ok_flag true
      else reply_of trimmed (strip_prefix (codes "OK ") trimmed)

  abbrev response_of : Result Text Text × V → Response × V
  response_of (ok response, v) = (parse_response response, v)
  response_of (err e, v) =
      (error (codes "Maestro socket " ++ socket.socket_path ++ codes ": " ++ e), v)

  unfoldable pub send_command : Text → V → Response × V
  unfolding exchange parse_response
  send_command command v = response_of (exchange command v)
