-- ===== src/Drain/Stats.antt =====
-- The session counts of the drain manager (provider/haproxy/haproxy.go): `ReadStats`,
-- `readCurrentStats` and `olderPidExists`.
pub mod Grouping
use load_balancer_controller.Base.{
  ℕ, ltb, ◌==◌, Bool, true, false, not, ◌&&◌, ◌||◌, Option, some, none, List, [], ◌∷◌, ◌++◌,
  if◌then◌else◌, length, is_empty,
}
use load_balancer_controller.Base.Text.{
  Text, codes, ℤ, pos, negsuc, atoi, itoa_int, int_add, text_eq, has_prefix, split_byte,
}
use load_balancer_controller.Base.Dict.{Dict, insert, lookup}
use load_balancer_controller.Base.Outcome.{Outcome, ok, err, ◌>>=◌}
use load_balancer_controller.Drain.Runtime.{
  Env, Log, Reply, Fault, no_stats, column_count, no_endpoint, bad_count, show_stat, run_command,
}
use load_balancer_controller.Drain.Servers.{columns, field, after_two}

-- `Stat`: one line of the statistics, by column name.
abbrev pub Stat : Type 0
Stat = Dict Text

abbrev pub Stats : Type 0
Stats = Dict (List Stat)

abbrev pub stats_or_none : Option (List Stat) → List Stat
stats_or_none none = []
stats_or_none (some l) = l

-- `stats[stat["svname"]] = append(stats[stat["svname"]], stat)`
unfoldable pub add_stat : Stat → Stats → Stats
unfolding insert lookup field
add_stat stat m =
    let name = field (codes "svname") stat in
    insert name (stats_or_none (lookup name m) ++ stat ∷ []) m

-- One line below the header, which has `keys`.
unfoldable pub parse_stat : List Text → Text → Outcome Fault Stat
unfolding columns split_byte
parse_stat keys line =
    let values = split_byte b',' line in
    if not (length keys == length values) then err column_count else ok (columns keys values [])

add_line : List Text → Text → Stats → Outcome Fault Stats
unfolding parse_stat add_stat
add_line keys line m =
    if is_empty line then ok m else parse_stat keys line >>= λ stat. ok (add_stat stat m)

unfoldable pub stat_lines : List Text → List Text → Stats → Outcome Fault Stats
unfolding add_line
stat_lines keys [] m = ok m
stat_lines keys (line ∷ lines) m = add_line keys line m >>= λ m'. stat_lines keys lines m'

parse_stats : List Text → Outcome Fault Stats
unfolding stat_lines has_prefix split_byte
parse_stats [] = err no_stats
parse_stats (first ∷ lines) =
    if has_prefix first (codes "# ")
    then stat_lines (split_byte b',' (after_two first)) lines []
    else err no_stats

-- `ReadStats`
unfoldable pub read_stats : Env → Log → Reply Stats
unfolding run_command parse_stats
read_stats env log =
    let (r, log') = run_command env show_stat log in (r >>= λ lines. parse_stats lines, log')

-- The sessions and the backend names of an endpoint.
pub record Sessions : Type 0 where
  pub total : ℤ
  pub backend_names : List Text

add_count : Text → ℤ → Option Text → Outcome Fault ℤ
unfolding atoi int_add
add_count name total none = ok total
add_count name total (some count) =
    if is_empty count
    then ok total
    else elim (atoi count) [ none ↦ err (bad_count name) | some n ↦ ok (int_add total n) ]

add_name : Text → List Text → Option Text → List Text
add_name name names none = names
add_name name names (some px) = names ++ (px ++ (b'/' ∷ name)) ∷ []

unfoldable pub sum_sessions : Text → List Stat → Sessions → Outcome Fault Sessions
unfolding add_count add_name lookup
sum_sessions name [] s = ok s
sum_sessions name (stat ∷ stats) s =
    add_count name s.total (lookup (codes "scur") stat) >>= λ total.
    sum_sessions name stats (record {
      total = total;
      backend_names = add_name name s.backend_names (lookup (codes "pxname") stat);
    })

sessions_of : Text → Stats → Outcome Fault Sessions
unfolding sum_sessions lookup
sessions_of name stats = elim (lookup name stats) [
  | none ↦ err (no_endpoint name)
  | some l ↦ sum_sessions name l (record { total = pos 0; backend_names = [] })
]

-- `readCurrentStats`: the sum of the current sessions, as a text, and the backend names.
unfoldable pub read_current_stats : Env → Text → Log → Reply (Text × List Text)
unfolding read_stats sessions_of itoa_int
read_current_stats env name log =
    let (r, log') = read_stats env log in
    (r >>= (λ stats. sessions_of name stats) >>= λ s. ok (itoa_int s.total, s.backend_names), log')

-- `olderPidExists`: a listing that fails counts as one with an older process.
unfoldable pub older_pid_exists : Env → Log → Bool × Option Fault
unfolding split_byte
older_pid_exists env log = elim (env.pidof log) [
  | err e ↦ (true, some e)
  | ok output ↦ (ltb 1 (length (split_byte b' ' output)), none)
]
