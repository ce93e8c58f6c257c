-- ===== src/Drain/Runtime.antt =====
-- The commands on HAProxy's runtime socket (`runCommand`), and what the manager reads of the
-- system. Each answer may depend on all the commands given before: the answers are parameters.
use load_balancer_controller.Base.{
  ℕ, Bool, not, Option, none, some, List, [], ◌∷◌, ◌++◌, is_empty, if◌then◌else◌, ◌==◌,
}
use load_balancer_controller.Base.Text.{Text, ℤ, codes, itoa_int, trim_space, atoi, itoa}
use load_balancer_controller.Base.Outcome.{Outcome, ok, err}

pub data Command : Type 0 where
  show_stat : Command
  show_servers_state : Command
  set_weight : Text → ℤ → Command

-- The text that goes over the socket.
unfoldable pub render : Command → Text
unfolding itoa_int
render show_stat = codes "show stat"
render show_servers_state = codes "show servers state"
render (set_weight backend w) = codes "set server " ++ (backend ++ (codes " weight " ++ itoa_int w))

pub data Fault : Type 0 where
  io : Fault
  bad_pid : Fault
  column_count : Fault
  bad_fields : Fault
  no_header : Fault
  missing_column : Text → Fault
  rejected : Text → Fault
  unverified : Text → ℤ → Fault
  no_endpoint : Text → Fault
  bad_count : Text → Fault
  no_stats : Fault

-- The commands given so far, the newest first.
abbrev pub Log : Type 0
Log = List Command

pub record Env : Type 0 where
  -- the answer on the socket
  pub reply : Log → Text → Outcome Fault (List Text)
  -- the contents of the pid file
  pub pid_file : Log → Outcome Fault Text
  -- the output of `pidof haproxy`
  pub pidof : Log → Outcome Fault Text
  -- whether /proc/<pid> is there
  pub proc_exists : Log → ℕ → Outcome Fault Bool

abbrev pub Reply : Type 0 → Type 0
Reply A = Outcome Fault A × Log

-- `runCommand`
unfoldable pub run_command : Env → Command → Log → Reply (List Text)
unfolding render
run_command env cmd log = (env.reply log (render cmd), cmd ∷ log)

-- The loop of `setWeight` over the answer: any line with text in it is a refusal.
unfoldable pub accepted : List Text → Outcome Fault (Unit {0})
accepted [] = ok tt
accepted (line ∷ lines) =
    if not (is_empty (trim_space line)) then err (rejected line) else accepted lines

-- `setWeight`
unfoldable pub set_server_weight : Env → Text → ℤ → Log → Reply (Unit {0})
unfolding run_command accepted
set_server_weight env backend w log =
    let (r, log') = run_command env (set_weight backend w) log in
    elim r [ err e ↦ (err e, log') | ok lines ↦ (accepted lines, log') ]

-- `readPid`: a positive decimal number, white space around it aside.
abbrev positive_pid : Option ℤ → Outcome Fault Text
positive_pid none = err bad_pid
positive_pid (some (ℤ.pos n)) = if n == 0 then err bad_pid else ok (itoa n)
positive_pid (some (ℤ.negsuc n)) = err bad_pid

unfoldable pub read_pid : Env → Log → Outcome Fault Text
unfolding itoa atoi trim_space
read_pid env log = elim (env.pid_file log) [
  | err e ↦ err e
  | ok content ↦ positive_pid (atoi (trim_space content))
]
