-- ===== src/Tests/Sockets.antt =====
-- The theorems on Maestro Local in a world of a server with one session: the world is the list of the
-- server's tasks.
use qrmi.Prelude.{
  ℕ, ◌^◌, ◌≡◌, refl, inl, inr, Bool, true, false, Bool-cases, Option, none, some, List, [], ◌∷◌,
  ◌++◌, ltb, if◌then◌else◌, is_some, unwrap_or, ◌||◌,
}
use qrmi.Text.{Text, codes, eq_text, strip_prefix}
use qrmi.Result.{Result, ok, err}
use qrmi.Errors.{QrmiError}
use qrmi.Models.{TaskStatus, Payload}
use qrmi.Json.{
  Value, number, pos_int, string, object, bool, Fields, end, field, Codec, as_str, as_u64,
  is_object, is_null, member, lookup,
}
use qrmi.Maestro.Socket.{Socket, exchange}
use qrmi.Maestro.Request.{Json}
use qrmi.Maestro.Session.{
  exists_at, failed_at, finished_at, running_at, cancel_at, set_observables_as_string_at,
  set_qasm_at, set_options_json_at,
}
use qrmi.Maestro.Session.Lines.{Sends, set_text-Sends}
use qrmi.Maestro.Local.{MaestroLocal, fresh}
use qrmi.Maestro.Local.Tasks.{task_status, task_stop}
use qrmi.Maestro.Local.Tasks.Submit.{task_start}
use qrmi.Maestro.Local.Tasks.Reach.{
  IsEnd, OnlyEnds, constructed, called, call_task_status, no_call, then_call, elsewhere,
  task_status_stays, task_stop_settles, Reached-OnlyEnds,
}
use qrmi.Maestro.Local.Tasks.Replies.{IsServer}
use qrmi.Maestro.Local.Tasks.Refusal.{Promise, task_start-Promise}
use qrmi.Maestro.Local.Tasks.Answers.{IsWord}
use qrmi.Maestro.Local.Tasks.Ids.{Named, task_start-Names}

abbrev World : Type 0
World = List (ℕ × ℕ)

abbrev fields_of : List (Text × Value) → Fields
fields_of [] = end
fields_of ((name, v) ∷ fields) = field name v (fields_of fields)

abbrev small : Option ℕ → Option ℕ
small none = none
small (some n) = if ltb n (2 ^ 32) then some n else none

abbrev as_bool : Value → Option Bool
as_bool (bool b) = some b
as_bool _ = none

abbrev version_2 : Fields → Value
version_2 fields = object (field (codes "version") (number (pos_int 2)) fields)

abbrev schema_2 : Value
schema_2 = object (field (codes "schema_version") (number (pos_int 2)) end)

abbrev catalog : Value
catalog = version_2 (field (codes "ok") (bool true) (field (codes "native") schema_2 end))

abbrev made : Value
made = version_2 (field (codes "ok") (bool true) (field (codes "task_id") (number (pos_int 5)) end))

abbrev refused : Value
refused = version_2 (
    field (codes "ok") (bool false) (
      field (codes "error")
        (object (
          field (codes "code") (string (codes "invalid_input"))
            (field (codes "message") (string (codes "no")) end)))
        end))

-- The documents go by a word.
abbrev read : Text → Option Value
read t =
    if eq_text t (codes "catalog")
    then some catalog
    else if eq_text t (codes "made")
    then some made
    else if eq_text t (codes "refused")
    then some refused
    else if eq_text t (codes "request")
    then some schema_2
    else none

abbrev read_result : Option Value → Result Text Value
read_result none = err (codes "no JSON")
read_result (some v) = ok v

abbrev index : Value → Text → Value
index v name = member v name

abbrev json : Json Value
json = record {
  parse = λ t. read_result (read t);
  dump = λ v. unwrap_or (as_str (index v (codes "command"))) (codes "null");
  object = λ fields. object (fields_of fields);
  number = λ n. number (pos_int n);
  string = λ t. string t;
  member = λ v name. index v name;
  is_object = λ v. is_object v;
  is_null = λ v. is_null v;
  as_u32 = λ v. small (as_u64 v);
  as_u64 = λ v. as_u64 v;
  as_bool = λ v. as_bool v;
  as_str = λ v. as_str v;
}

abbrev codec : Codec
codec = record {
  from_str = λ t. read t;
  parse_error = λ t. codes "no JSON";
  to_string = λ v. codes "request";
}

abbrev starts : Text → Text → Bool
starts prefix t = is_some (strip_prefix prefix t)

-- The server that answers a submission by the word given, and adds a task if it is `made`; its tasks
-- exist and can be cancelled.
abbrev reply : Text → Text → World → Result Text Text × World
reply word command w =
    if eq_text command (codes "API catalog\n") || eq_text command (codes "API capabilities\n")
    then (ok (codes "OK catalog\n"), w)
    else if eq_text command (codes "API submit\n")
    then (
      ok (codes "OK " ++ (word ++ codes "\n")),
      if eq_text word (codes "made") then (9, 5) ∷ w else w,
    )
    else if starts (codes "SESSION 9 TASK 5 EXISTS") command
        || starts (codes "SESSION 9 TASK 5 CANCEL") command
    then (ok (codes "OK YES\n"), w)
    else (ok (codes "OK NO\n"), w)

abbrev socket : Text → Socket World
socket word = record {
  transfer = λ time bytes command w. reply word command w;
  socket_path = codes "/run/maestro.sock";
  debug = λ t. t;
}

abbrev display : QrmiError → Text
display e = codes "an error"

abbrev start : MaestroLocal × World
start = (fresh (codes "m") (codes "/run/maestro.sock") (some 9), [])

abbrev native_job : Payload
native_job = Payload.maestro_local (codes "request") (codes "request") 0 0 0 [] (codes "{}")

abbrev server_refuses : Socket World
server_refuses = socket (codes "refused")

-- The same world after the refusal of a submission.
refusing-IsServer : IsServer server_refuses json (λ w. w)
unfolding exchange strip_prefix eq_text lookup
refusing-IsServer = record { discovery = λ v. refl; refusal = λ session_id request v v' t e r. cc }

task_start-Promise_example :
    Promise server_refuses json codec display
      (λ w. w)
      refusing-IsServer
      start
      (task_start server_refuses json codec display native_job start)
task_start-Promise_example =
    task_start-Promise server_refuses json codec display (λ w. w) refusing-IsServer start native_job

abbrev server_takes : Socket World
server_takes = socket (codes "made")

small-IsWord : (o : Option ℕ) (n : ℕ) → small o ≡ some n → IsWord n
small-IsWord none n e = cc
small-IsWord (some m) n e = elim (Bool-cases (ltb m (2 ^ 32))) [
  | inl h ↦ let same : m ≡ n = cc (rw h at e) in rw same at h
  | inr h ↦ absurd (cc (rw h at e))
]

task_start-Names_example :
    Named server_takes json (task_start server_takes json codec display native_job start)
task_start-Names_example =
    task_start-Names server_takes json codec display (λ d n. small-IsWord (as_u64 d) n) native_job
      start

-- A server that confirms all.
abbrev server_fails : Socket World
server_fails = record {
  transfer = λ time bytes command w. (ok (codes "OK YES\n"), w);
  socket_path = codes "/run/maestro.sock";
  debug = λ t. t;
}

abbrev ended : TaskStatus → World → MaestroLocal × World
ended st w = (
  record (fresh (codes "m") (codes "/run/maestro.sock") (some 9)) {
    terminal_tasks = ((9, 5), st) ∷ [];
  },
  w,
)

fails :
    task_status server_fails json codec (codes "5") start
    ≡ (ok TaskStatus.failed, ended TaskStatus.failed [])
unfolding task_status exists_at failed_at
fails = refl

task_status_stays_example :
    task_status server_fails json codec (codes "5") (ended TaskStatus.failed ((9, 6) ∷ []))
    ≡ (ok TaskStatus.failed, ended TaskStatus.failed ((9, 6) ∷ []))
task_status_stays_example =
    task_status_stays server_fails json codec display (codes "5")
      (constructed (codes "m") (codes "/run/maestro.sock") (some 9) []) TaskStatus.failed fails tt
      (then_call no_call (elsewhere ((9, 6) ∷ [])))

stops : task_stop server_takes json codec (codes "5") start ≡ (ok tt, ended TaskStatus.cancelled [])
unfolding task_stop exists_at failed_at finished_at running_at cancel_at
stops = refl

task_stop_settles_example :
    (st : TaskStatus) × IsEnd st
    × (task_status server_takes json codec (codes "5") (ended TaskStatus.cancelled ((9, 6) ∷ []))
        ≡ (ok st, ended TaskStatus.cancelled ((9, 6) ∷ [])))
task_stop_settles_example =
    task_stop_settles server_takes json codec display (codes "5")
      (constructed (codes "m") (codes "/run/maestro.sock") (some 9) []) stops
      (then_call no_call (elsewhere ((9, 6) ∷ [])))

Reached-OnlyEnds_example : OnlyEnds (task_status server_fails json codec (codes "5") start).1.0
Reached-OnlyEnds_example = Reached-OnlyEnds server_fails json codec display (
    called (constructed (codes "m") (codes "/run/maestro.sock") (some 9) [])
      (call_task_status (codes "5")))

abbrev two_lines : Text
two_lines = codes "qreg q[1];\nSESSION 9 DELETE"

set_text-Sends_example :
    Sends server_takes
      (record { id = 5; session_id = 9 })
      two_lines
      []
      (set_observables_as_string_at server_takes (record { id = 5; session_id = 9 }) two_lines)
    × Sends server_takes
        (record { id = 5; session_id = 9 })
        two_lines
        []
        (set_qasm_at server_takes (record { id = 5; session_id = 9 }) two_lines)
    × Sends server_takes
        (record { id = 5; session_id = 9 })
        two_lines
        []
        (set_options_json_at server_takes (record { id = 5; session_id = 9 }) two_lines)
set_text-Sends_example =
    set_text-Sends server_takes (record { id = 5; session_id = 9 }) two_lines []
