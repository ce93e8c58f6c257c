-- ===== src/Drain/Servers.antt =====
-- `readServerStates` and `setWeightVerified` of drain_recovery.go.
pub mod Parsed
use load_balancer_controller.Base.{
  ℕ, ◌==◌, ◌≡◌, refl, ◌∙◌, inl, inr, ◌⊎◌, arith, Option-cases, leb, Bool, true, false, not, ◌&&◌,
  ◌||◌, Option, none, some, List, [], ◌∷◌, ◌++◌, if◌then◌else◌, length, any, is_empty,
}
use load_balancer_controller.Base.Text.{
  Text, ℤ, pos, negsuc, codes, text_eq, fields, atoi, has_prefix, trim_space, int_eq, int_eq_iff,
}
use load_balancer_controller.Base.Dict.{Dict, insert, lookup}
use load_balancer_controller.Base.Outcome.{Outcome, ok, err, ◌>>=◌}
use load_balancer_controller.Drain.State.{ServerState}
use load_balancer_controller.Drain.Runtime.{
  Env, Log, Reply, Fault, column_count, bad_fields, no_header, missing_column, unverified,
  set_weight, show_servers_state, run_command, set_server_weight,
}
use load_balancer_controller.Drain.Desired.{server_key}

-- What a Go map gives for a key that is not there: "".
pub text_or_empty : Option Text → Text
text_or_empty none = []
text_or_empty (some v) = v

unfoldable pub field : Text → Dict Text → Text
unfolding text_or_empty lookup
field key m = text_or_empty (lookup key m)

-- `fields[key] = values[i]` for each column; the lists have one length.
unfoldable pub columns : List Text → List Text → Dict Text → Dict Text
unfolding insert
columns [] values m = m
columns (k ∷ keys) [] m = m
columns (k ∷ keys) (v ∷ values) m = columns keys values (insert k v m)

-- A number that `Atoi` reads, and that lies between 0 and `top`.
within : Option ℕ → Option ℤ → Option ℕ
within none (some (pos n)) = some n
within (some top) (some (pos n)) = if leb n top then some n else none
within top _ = none

read_state : Text → Text → Option ℕ → Option ℕ → Option ℕ → Option ℕ → Outcome Fault ServerState
unfolding server_key
read_state backend name (some w) (some i) (some a) (some o) =
    if is_empty backend || is_empty name
    then err bad_fields
    else ok (record {
      backend = server_key backend name;
      name = name;
      weight = w;
      initial_weight = i;
      admin = a;
      operational = o;
    })
read_state backend name w i a o = err bad_fields

unfoldable pub parse_state : Dict Text → Outcome Fault ServerState
unfolding read_state within field atoi
parse_state m =
    read_state (field (codes "be_name") m) (field (codes "srv_name") m)
      (within (some 256) (atoi (field (codes "srv_uweight") m)))
      (within (some 256) (atoi (field (codes "srv_iweight") m)))
      (within none (atoi (field (codes "srv_admin_state") m)))
      (within (some 3) (atoi (field (codes "srv_op_state") m)))

-- One data line under the header.
unfoldable pub parse_row : List Text → Text → Outcome Fault ServerState
unfolding columns fields parse_state
parse_row header line =
    let values = fields line in
    if not (length values == length header)
    then err column_count
    else parse_state (columns header values [])

required : List Text
required =
    codes "be_name"
    ∷ codes "srv_name"
    ∷ codes "srv_uweight"
    ∷ codes "srv_iweight"
    ∷ codes "srv_admin_state"
    ∷ codes "srv_op_state"
    ∷ []

check_header : List Text → List Text → Dict ServerState → Outcome Fault (Dict ServerState)
unfolding any text_eq
check_header [] header states = ok states
check_header (r ∷ rs) header states =
    if any (λ f. text_eq f r) header then check_header rs header states else err (missing_column r)

finish_states : Option (List Text) → Dict ServerState → Outcome Fault (Dict ServerState)
unfolding check_header required
finish_states none states = err no_header
finish_states (some header) states = check_header required header states

-- What `strings.TrimPrefix(line, "# ")` leaves of a line that has the prefix.
abbrev pub after_two : Text → Text
after_two (a ∷ b ∷ s) = s
after_two s = s

abbrev insert_state : Dict ServerState → ServerState → Dict ServerState
insert_state states s = insert s.backend s states

-- The loop's variables: the header seen last, and the servers read so far.
abbrev Reading : Type 0
Reading = Option (List Text) × Dict ServerState

file_row : List Text → Dict ServerState → Outcome Fault ServerState → Outcome Fault Reading
file_row h states (err e) = err e
file_row h states (ok s) = ok (some h, insert_state states s)

data_line : Option (List Text) → Dict ServerState → Text → Outcome Fault Reading
unfolding file_row parse_row trim_space insert
data_line none states line = ok (none, states)
data_line (some h) states line =
    if is_empty (trim_space line) then ok (some h, states) else file_row h states (parse_row h line)

-- One round of the loop over the answer.
read_line : Option (List Text) → Dict ServerState → Text → Outcome Fault Reading
unfolding data_line has_prefix fields
read_line header states line =
    if has_prefix line (codes "# ")
    then ok (some (fields (after_two line)), states)
    else data_line header states line

unfoldable pub parse_states :
    Option (List Text) → Dict ServerState → List Text → Outcome Fault (Dict ServerState)
unfolding finish_states read_line
parse_states header states [] = finish_states header states
parse_states header states (line ∷ lines) = do
  r ← read_line header states line
  parse_states r.0 r.1 lines

unfoldable pub read_server_states : Env → Log → Reply (Dict ServerState)
unfolding run_command parse_states
read_server_states env log =
    let (r, log') = run_command env show_servers_state log in
    elim r [ err e ↦ (err e, log') | ok lines ↦ (parse_states none [] lines, log') ]

-- The readback: the server is there, with the weight that was set.
unfoldable pub readback : Text → ℤ → Dict ServerState → Outcome Fault (Unit {0})
unfolding lookup int_eq
readback backend w states = elim (lookup backend states) [
  | none ↦ err (unverified backend w)
  | some s ↦ if int_eq (pos s.weight) w then ok tt else err (unverified backend w)
]

confirm : Text → ℤ → Reply (Dict ServerState) → Reply (Unit {0})
unfolding readback
confirm backend w (err e, log) = (err e, log)
confirm backend w (ok states, log) = (readback backend w states, log)

verify : Env → Text → ℤ → Reply (Unit {0}) → Reply (Unit {0})
unfolding confirm read_server_states
verify env backend w (err e, log) = (err e, log)
verify env backend w (ok _, log) = confirm backend w (read_server_states env log)

unfoldable pub set_weight_verified : Env → Text → ℤ → Log → Reply (Unit {0})
unfolding verify set_server_weight
set_weight_verified env backend w log = verify env backend w (set_server_weight env backend w log)

-- A readback succeeds only on a server that is there with the weight.
readback-ok :
    (key : Text) (v : ℤ) (states : Dict ServerState)
    → readback key v states ≡ ok tt
    → (s : ServerState) × (lookup key states ≡ some s) × (pos s.weight ≡ v)
unfolding readback
readback-ok key v states h = elim (Option-cases (lookup key states)) [
  | inl e ↦ absurd (ground arith)
  | inr (s, e) ↦ (s, e, ground (arith, int_eq_iff (pos s.weight) v))
]

confirm-ok :
    (key : Text) (v : ℤ) (r : Reply (Dict ServerState))
    → (confirm key v r).0 ≡ ok tt
    → (states : Dict ServerState) × (s : ServerState) × (r.0 ≡ ok states)
      × (lookup key states ≡ some s)
      × (pos s.weight ≡ v)
unfolding confirm
confirm-ok key v (err e, log) h = absurd (cc h)
confirm-ok key v (ok states, log) h =
    let (s, found, weight) = readback-ok key v states h in (states, s, refl, found, weight)

verify-ok :
    (env : Env) (key : Text) (v : ℤ) (r : Reply (Unit {0}))
    → (verify env key v r).0 ≡ ok tt
    → (states : Dict ServerState) × (s : ServerState) × ((read_server_states env r.1).0 ≡ ok states)
      × (lookup key states ≡ some s)
      × (pos s.weight ≡ v)
unfolding verify
verify-ok env key v (err e, log) h = absurd (cc h)
verify-ok env key v (ok _, log) h = confirm-ok key v (read_server_states env log) h

-- A change of weight that is reported as done was read back: the next answer of HAProxy shows
-- the server with the weight.
pub set_weight_verified-readback :
    (env : Env) (key : Text) (v : ℤ) (log : Log)
    → (set_weight_verified env key v log).0 ≡ ok tt
    → (states : Dict ServerState) × (s : ServerState) × ((read_server_states env
          (set_server_weight env key v log).1).0
        ≡ ok states)
      × (lookup key states ≡ some s)
      × (pos s.weight ≡ v)
unfolding set_weight_verified
set_weight_verified-readback env key v log h = verify-ok env key v _ h

pub read_server_states-log :
    (env : Env) (log : Log) → (read_server_states env log).1 ≡ show_servers_state ∷ log
unfolding read_server_states
read_server_states-log env log = ground arith

pub set_server_weight-log :
    (env : Env) (key : Text) (v : ℤ) (log : Log)
    → (set_server_weight env key v log).1 ≡ set_weight key v ∷ log
unfolding set_server_weight
set_server_weight-log env key v log = ground arith

confirm-log : (key : Text) (v : ℤ) (r : Reply (Dict ServerState)) → (confirm key v r).1 ≡ r.1
unfolding confirm
confirm-log key v (err e, log) = refl
confirm-log key v (ok states, log) = refl

verify-log :
    (env : Env) (key : Text) (v : ℤ) (r : Reply (Unit {0}))
    → ((verify env key v r).1 ≡ r.1) ⊎ ((verify env key v r).1 ≡ show_servers_state ∷ r.1)
unfolding verify
verify-log env key v (err e, log) = inl refl
verify-log env key v (ok _, log) =
    inr (confirm-log key v (read_server_states env log) ∙ read_server_states-log env log)

-- The log after a weight change: the change, and the readback unless the change failed.
pub set_weight_verified-log :
    (env : Env) (key : Text) (v : ℤ) (log : Log)
    → ((set_weight_verified env key v log).1 ≡ set_weight key v ∷ log)
      ⊎ ((set_weight_verified env key v log).1 ≡ show_servers_state ∷ set_weight key v ∷ log)
unfolding set_weight_verified
set_weight_verified-log env key v log =
    rw (← set_server_weight-log env key v log)
      (verify-log env key v (set_server_weight env key v log))
