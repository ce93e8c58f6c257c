-- ===== src/Drain/Stats/Grouping.antt =====
-- How `ReadStats` groups the lines.
use load_balancer_controller.Base.{
  true, false, List, [], ◌∷◌, ◌++◌, ◌≡◌, refl, sym, ◌∙◌, ap, inl, inr, if◌then◌else◌, is_empty,
  keep, Bool-cases,
}
use load_balancer_controller.Base.Text.{Text, codes, text_eq, text_eq_iff}
use load_balancer_controller.Base.Dict.{lookup, lookup-insert}
use load_balancer_controller.Base.Outcome.{Outcome, ok, ◌>>=◌, bind-eq-ok}
use load_balancer_controller.Drain.Runtime.{Fault}
use load_balancer_controller.Drain.Servers.{field}
use load_balancer_controller.Drain.Stats.{
  Stat, Stats, stats_or_none, add_stat, parse_stat, add_line, stat_lines,
}
use mathlib.Core.List.{append-nil, append_assoc}

-- The lines that hold something, parsed one by one.
pub parse_all : List Text → List Text → Outcome Fault (List Stat)
parse_all keys [] = ok []
parse_all keys (line ∷ lines) =
    let rest = parse_all keys lines in
    if is_empty line then rest else (parse_stat keys line >>= λ s. rest >>= λ l. ok (s ∷ l))

-- The lines of one server.
abbrev pub of_server : Text → List Stat → List Stat
of_server name = keep (λ s. text_eq (field (codes "svname") s) name)

abbrev filed : Text → Stats → List Stat
filed name m = stats_or_none (lookup name m)

filed-add_stat :
    (name : Text) (s : Stat) (m : Stats)
    → filed name (add_stat s m) ≡ filed name m ++ of_server name (s ∷ [])
unfolding add_stat keep
filed-add_stat name s m = elim (Bool-cases (text_eq (field (codes "svname") s) name)) [
  | inl e ↦ rw (lookup-insert, e) (rw ((text_eq_iff (field (codes "svname") s) name).0 e) refl)
  | inr e ↦ rw (lookup-insert, e) (sym (append-nil (filed name m)))
]

of_server-cons :
    (name : Text) (s : Stat) (l : List Stat)
    → of_server name (s ∷ l) ≡ of_server name (s ∷ []) ++ of_server name l
unfolding keep
of_server-cons name s l = elim (Bool-cases (text_eq (field (codes "svname") s) name)) [
  | inl e ↦ rw e
  | inr e ↦ rw e
]

-- Rows that were parsed from the lines, and filed.
pub record Filed (keys lines : List Text) (before after : Stats) : Type 0 where
  pub rows : List Stat
  pub parsed : parse_all keys lines ≡ ok rows
  pub placed : (name : Text) → filed name after ≡ filed name before ++ of_server name rows

module _ (keys : List Text) (line : Text) (lines : List Text) (before : Stats) {after : Stats} where
  Filed-skip :
      is_empty line ≡ true → Filed keys lines before after → Filed keys (line ∷ lines) before after
  Filed-skip e f = record {
    rows = f.rows;
    parsed = unfold parse_all in rw e f.parsed;
    placed = f.placed;
  }

  Filed-more :
      (s : Stat)
      → is_empty line ≡ false
      → parse_stat keys line ≡ ok s
      → Filed keys lines (add_stat s before) after
      → Filed keys (line ∷ lines) before after
  Filed-more s e p f = record {
    rows = s ∷ f.rows;
    parsed = unfold parse_all in rw (e, p, f.parsed);
    placed = λ name.
        f.placed name
        ∙ ap (λ (l : List Stat). l ++ of_server name f.rows) (filed-add_stat name s before)
        ∙ append_assoc (filed name before) (of_server name (s ∷ [])) (of_server name f.rows)
        ∙ ap (λ (l : List Stat). filed name before ++ l) (sym (of_server-cons name s f.rows));
  }

-- When `ReadStats` accepts the lines, every line that holds something has the columns of the
-- header, and each server has its own lines, in order, behind those that it had.
pub stat_lines-Filed :
    (keys lines : List Text) (before : Stats) {after : Stats}
    → stat_lines keys lines before ≡ ok after
    → Filed keys lines before after
unfolding stat_lines add_line
stat_lines-Filed keys [] before {after} h = record {
  rows = [];
  parsed = unfold parse_all in refl;
  placed = λ name.
      unfold keep in
      (let e : before ≡ after = cc h in
        ap (filed name) (sym e) ∙ sym (append-nil (filed name before)));
}
stat_lines-Filed keys (line ∷ lines) before {after} h = elim (Bool-cases (is_empty line)) [
  | inl e ↦ Filed-skip keys line lines before e (stat_lines-Filed keys lines before (rw e at h))
  | inr e ↦
      let (mid, now, later) =
        bind-eq-ok (add_line keys line before) (λ m. stat_lines keys lines m) h in
      let (s, p, q) =
        bind-eq-ok (parse_stat keys line) (λ s. ok (add_stat s before)) (rw e at now) in
      let same : add_stat s before ≡ mid = cc q in
      Filed-more keys line lines before s e p
        (stat_lines-Filed keys lines (add_stat s before) (rw (← same) at later))
]
