-- ===== src/Drain/Servers/Parsed.antt =====
-- What `readServerStates` accepts.
use load_balancer_controller.Base.{
  ℕ, ◌≤◌, ◌==◌, not, ◌||◌, Option, some, none, List, [], ◌∷◌, ◌≡◌, ◌≢◌, refl, arith, inl, inr,
  Bool-cases, is_empty, All, any, length,
}
use load_balancer_controller.Base.Text.{
  Text, codes, ℤ, pos, negsuc, text_eq, atoi, fields, trim_space, has_prefix,
}
use load_balancer_controller.Base.Dict.{Dict, insert, All-insert}
use load_balancer_controller.Base.Outcome.{Outcome, ok, err, bind-eq-ok}
use load_balancer_controller.Drain.State.{ServerState}
use load_balancer_controller.Drain.Runtime.{Fault}
use load_balancer_controller.Drain.Desired.{server_key}
use load_balancer_controller.Drain.Servers.{
  within, columns, read_state, finish_states, check_header, required, after_two, field, file_row,
  data_line, read_line, parse_state, parse_row, parse_states,
}

-- A server state within HAProxy's ranges, filed under its backend and its name.
pub record IsServer (key : Text) (s : ServerState) : Type 0 where
  pub weight_le : s.weight ≤ 256
  pub initial_le : s.initial_weight ≤ 256
  pub operational_le : s.operational ≤ 3
  pub name_ne : s.name ≢ []
  pub filed : s.backend ≡ key
  pub backend_is : (be : Text) × (be ≢ []) × (s.backend ≡ server_key be s.name)

within-le : (top : ℕ) (z : Option ℤ) {n : ℕ} → within (some top) z ≡ some n → n ≤ top
unfolding within
within-le top none h = absurd (cc h)
within-le top (some (pos n)) h = ground arith
within-le top (some (negsuc n)) h = absurd (cc h)

read_state-IsServer :
    (backend name : Text) (w i a o : Option ℕ) {s : ServerState}
    → ((n : ℕ) → w ≡ some n → n ≤ 256)
    → ((n : ℕ) → i ≡ some n → n ≤ 256)
    → ((n : ℕ) → o ≡ some n → n ≤ 3)
    → read_state backend name w i a o ≡ ok s
    → IsServer s.backend s
unfolding read_state
read_state-IsServer backend name (some w) (some i) (some a) (some o) hw hi ho h =
    elim (Bool-cases (is_empty backend || is_empty name)) [
      | inl e ↦ absurd (ground arith)
      | inr e ↦ record {
        weight_le = ground (arith, hw w refl);
        initial_le = ground (arith, hi i refl);
        operational_le = ground (arith, ho o refl);
        name_ne = ground arith;
        filed = refl;
        backend_is = (backend, ground arith, ground arith);
      }
    ]
read_state-IsServer backend name w i a o hw hi ho h = absurd (cc h)

parse_state-IsServer :
    (m : Dict Text) {s : ServerState} → parse_state m ≡ ok s → IsServer s.backend s
unfolding parse_state
parse_state-IsServer m h =
    read_state-IsServer _ _ _ _ _ _ (λ n e. within-le 256 (atoi (field (codes "srv_uweight") m)) e)
      (λ n e. within-le 256 (atoi (field (codes "srv_iweight") m)) e)
      (λ n e. within-le 3 (atoi (field (codes "srv_op_state") m)) e) h

parse_row-IsServer :
    (header : List Text) (line : Text) {s : ServerState}
    → parse_row header line ≡ ok s
    → IsServer s.backend s
unfolding parse_row
parse_row-IsServer header line {s} h =
    elim (Bool-cases (not (length (fields line) == length header))) [
      | inl e ↦ absurd (cc (rw e at h))
      | inr e ↦ parse_state-IsServer (columns header (fields line) []) (rw e at h)
    ]

abbrev pub AllServers : Dict ServerState → Type 0
AllServers = All (λ (e : Text × ServerState). IsServer e.0 e.1)

check_header-ok :
    (rs header : List Text) (states : Dict ServerState) {out : Dict ServerState}
    → check_header rs header states ≡ ok out
    → out ≡ states
unfolding check_header
check_header-ok [] header states h = ground arith
check_header-ok (r ∷ rs) header states h = elim (Bool-cases (any (λ f. text_eq f r) header)) [
  | inl e ↦ check_header-ok rs header states (rw e at h)
  | inr e ↦ absurd (cc (rw e at h))
]

finish_states-ok :
    (header : Option (List Text)) (states : Dict ServerState) {out : Dict ServerState}
    → finish_states header states ≡ ok out
    → out ≡ states
unfolding finish_states
finish_states-ok none states h = absurd (cc h)
finish_states-ok (some hd) states h = check_header-ok required hd states h

file_row-AllServers :
    (h : List Text) (line : Text) (states : Dict ServerState) (r : Outcome Fault ServerState)
    {out : Option (List Text) × Dict ServerState}
    → AllServers states
    → parse_row h line ≡ r
    → file_row h states r ≡ ok out
    → AllServers out.1
unfolding file_row
file_row-AllServers h line states (err e) a q g = absurd (cc g)
file_row-AllServers h line states (ok s) {out} a q g =
    let same : insert s.backend s states ≡ out.1 = cc g in
    rw (← same) (
      All-insert (λ (e : Text × ServerState). IsServer e.0 e.1) s.backend s states
        (parse_row-IsServer h line q) a)

data_line-AllServers :
    (header : Option (List Text)) (states : Dict ServerState) (line : Text)
    {out : Option (List Text) × Dict ServerState}
    → AllServers states
    → data_line header states line ≡ ok out
    → AllServers out.1
unfolding data_line
data_line-AllServers none states line {out} a g = let same : states ≡ out.1 = cc g in rw (← same) a
data_line-AllServers (some h) states line {out} a g =
    elim (Bool-cases (is_empty (trim_space line))) [
      | inl e ↦
          let f : ok (some h, states) ≡ ok out = rw e at g in
          let same : states ≡ out.1 = cc f in rw (← same) a
      | inr e ↦ file_row-AllServers h line states _ a refl (rw e at g)
    ]

read_line-AllServers :
    (header : Option (List Text)) (states : Dict ServerState) (line : Text)
    {out : Option (List Text) × Dict ServerState}
    → AllServers states
    → read_line header states line ≡ ok out
    → AllServers out.1
unfolding read_line
read_line-AllServers header states line {out} a g =
    elim (Bool-cases (has_prefix line (codes "# "))) [
      | inl e ↦
          let f : ok (some (fields (after_two line)), states) ≡ ok out = rw e at g in
          let same : states ≡ out.1 = cc f in rw (← same) a
      | inr e ↦ data_line-AllServers header states line a (rw e at g)
    ]

-- Every server that the answer of HAProxy is read to hold is in the ranges that the code checks,
-- has a name, and is filed under its backend and name.
pub parse_states-AllServers :
    (lines : List Text) (header : Option (List Text)) (states : Dict ServerState)
    {out : Dict ServerState}
    → AllServers states
    → parse_states header states lines ≡ ok out
    → AllServers out
unfolding parse_states
parse_states-AllServers [] header states a h = rw (finish_states-ok header states h) a
parse_states-AllServers (line ∷ lines) header states a h =
    let (r, now, later) =
      bind-eq-ok (read_line header states line) (λ r. parse_states r.0 r.1 lines) h in
    parse_states-AllServers lines r.0 r.1 (read_line-AllServers header states line a now) later
