-- ===== src/Maestro/Session/Lines.antt =====
-- The commands that carry a text of the user (dependencies/maestro_rust_library/src/maestro/session.rs)
-- over a protocol of lines.
use qrmi.Prelude.{
  ℕ, zero, suc, ◌+◌, ◌%◌, ◌/◌, ◌==◌, ltb, Bool, false, Bool-cases, ◌||◌, ◌≡◌, refl, ap, sym, inl,
  inr, [], ◌∷◌, ◌++◌, append_assoc, any, map, arith,
}
use qrmi.Text.{Text, codes, trim, trim_start, trim_end, print_ℕ, print_digits}
use qrmi.Exec.{Exec}
use qrmi.Maestro.Socket.{Socket, send_command}
use qrmi.Maestro.Session.{
  Task, to_session, to_task, spaced, one_line, set_observables_as_string_at, set_qasm_at,
  set_options_json_at,
}

-- A line break.
abbrev breaks : ℕ → Bool
breaks c = c == b'\n' || c == b'\r'

abbrev pub IsPlain : Text → Type 0
IsPlain s = any breaks s ≡ false

-- One line, which a newline ends.
pub record IsCommand (c : Text) : Type 0 where
  pub line : Text
  pub plain : IsPlain line
  pub ended : c ≡ line ++ codes "\n"

append-IsPlain : (s t : Text) → IsPlain s → IsPlain t → IsPlain (s ++ t)
append-IsPlain [] t h k = k
append-IsPlain (c ∷ s) t h k = ground (arith, append-IsPlain s t)

spaced-IsPlain : (s : Text) → IsPlain (map spaced s)
spaced-IsPlain [] = refl
spaced-IsPlain (c ∷ s) = ground (arith, spaced-IsPlain s)

trim_start-IsPlain : (s : Text) → IsPlain s → IsPlain (trim_start s)
unfolding trim_start
trim_start-IsPlain [] h = h
trim_start-IsPlain (c ∷ s) h = ground (arith, trim_start-IsPlain s)

trim_end-IsPlain : (s : Text) → IsPlain s → IsPlain (trim_end s)
unfolding trim_end
trim_end-IsPlain [] h = h
trim_end-IsPlain (c ∷ s) h = ground (arith, trim_end-IsPlain s)

one_line-IsPlain : (s : Text) → IsPlain (one_line s)
unfolding one_line trim
one_line-IsPlain s =
    trim_end-IsPlain (trim_start (map spaced s))
      (trim_start-IsPlain (map spaced s) (spaced-IsPlain s))

print_digits-IsPlain :
    (fuel n : ℕ) (rest : Text) → IsPlain rest → IsPlain (print_digits fuel n rest)
unfolding print_digits
print_digits-IsPlain zero n rest h = h
print_digits-IsPlain (suc fuel) n rest h =
    let more : IsPlain ((b'0' + n % 10) ∷ rest) = ground arith in
    elim (Bool-cases (ltb n 10)) [
      | inl e ↦ rw e more
      | inr e ↦ rw e (print_digits-IsPlain fuel (n / 10) ((b'0' + n % 10) ∷ rest) more)
    ]

print_ℕ-IsPlain : (n : ℕ) → IsPlain (print_ℕ n)
unfolding print_ℕ
print_ℕ-IsPlain n = print_digits-IsPlain (suc n) n [] refl

to_session-IsCommand : (id : ℕ) (verb : Text) → IsPlain verb → IsCommand (to_session id verb)
to_session-IsCommand id verb h = record {
  line = codes "SESSION " ++ (print_ℕ id ++ (codes " " ++ verb));
  plain = append-IsPlain (codes "SESSION ") (print_ℕ id ++ (codes " " ++ verb)) refl (
      append-IsPlain (print_ℕ id) (codes " " ++ verb) (print_ℕ-IsPlain id)
        (append-IsPlain (codes " ") verb refl h));
  ended =
      ap (λ t. codes "SESSION " ++ t)
        (sym (append_assoc (print_ℕ id) (codes " " ++ verb) (codes "\n")));
}

to_task-IsCommand : (task : Task) (verb : Text) → IsPlain verb → IsCommand (to_task task verb)
to_task-IsCommand task verb h =
    to_session-IsCommand task.session_id (codes "TASK " ++ (print_ℕ task.id ++ (codes " " ++ verb)))
      (append-IsPlain (codes "TASK ") (print_ℕ task.id ++ (codes " " ++ verb)) refl (
        append-IsPlain (print_ℕ task.id) (codes " " ++ verb) (print_ℕ-IsPlain task.id)
          (append-IsPlain (codes " ") verb refl h)))

module _ {V : Type 0} (socket : Socket V) (task : Task) (text : Text) (v : V) where
  -- All that the operation does is to send one command.
  pub record Sends (m : Exec V Text Bool) : Type 0 where
    pub command : Text
    pub whole : IsCommand command
    pub sent : (m v).1 ≡ (send_command socket command v).1

  -- Whatever the text holds, its line breaks included, each operation that passes a text of the user
  -- sends a single line to the server.
  pub set_text-Sends :
      Sends (set_observables_as_string_at socket task text)
      × Sends (set_qasm_at socket task text)
      × Sends (set_options_json_at socket task text)
  unfolding set_observables_as_string_at set_qasm_at set_options_json_at
  set_text-Sends = (
    record {
      command = to_task task (codes "SET_OBSERVABLES " ++ one_line text);
      whole =
          to_task-IsCommand task (codes "SET_OBSERVABLES " ++ one_line text) (
            append-IsPlain (codes "SET_OBSERVABLES ") (one_line text) refl (one_line-IsPlain text));
      sent = refl;
    },
    record {
      command = to_task task (codes "SET_QASM " ++ one_line text);
      whole =
          to_task-IsCommand task (codes "SET_QASM " ++ one_line text)
            (append-IsPlain (codes "SET_QASM ") (one_line text) refl (one_line-IsPlain text));
      sent = refl;
    },
    record {
      command = to_task task (codes "SET_OPTIONS " ++ one_line text);
      whole =
          to_task-IsCommand task (codes "SET_OPTIONS " ++ one_line text)
            (append-IsPlain (codes "SET_OPTIONS ") (one_line text) refl (one_line-IsPlain text));
      sent = refl;
    },
  )
