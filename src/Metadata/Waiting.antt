-- ===== src/Metadata/Waiting.antt =====
-- The loops of internal/metadata/client.go: `waitForConnection` and `OnChangeWithError`.
use load_balancer_controller.Base.{
  ℕ, zero, suc, ◌+◌, ◌*◌, ◌≤◌, ◌<◌, ltb, Bool, true, not, ◌&&◌, Option, some, none, List, [], ◌∷◌,
  ◌≡◌, refl, sym, ap, ◌∙◌, if◌then◌else◌, is_some, arith, inl, inr, Bool-cases,
}
use load_balancer_controller.Base.Text.{Text, codes, text_eq, text_eq_iff, ℤ, pos, int_lt}
use load_balancer_controller.Base.Outcome.{Outcome, ok, err}

-- The end of a wait: the service answered, or the time was up.
pub data Wait : Type 0 where
  ready : Wait
  not_ready : Wait

module _ (probe : ℕ → Bool) (took : ℕ → ℕ) where
  -- `probe n` is whether the n-th call of `GetVersion` succeeds, `took n` the seconds that it and
  -- the round take. `elapsed` and `delay` are in seconds; the deadline is 20 of them. The result has
  -- the number of calls; `none` when the fuel has run out.
  unfoldable pub wait_for_connection : ℕ → ℕ → ℕ → ℕ → Option (Wait × ℕ)
  wait_for_connection zero n delay elapsed = none
  wait_for_connection (suc fuel) n delay elapsed =
      let now = elapsed + took n in
      let rest =
        wait_for_connection fuel (suc n) (if ltb delay 4 then delay * 2 else delay) (now + delay) in
      if probe n
      then some (ready, suc n)
      else if ltb 20 (now + delay)
      then some (not_ready, suc n)
      else rest

  -- A round ends the wait, or leaves time for the rest of it.
  wait-round :
      (fuel n delay elapsed : ℕ)
      → (elapsed + took n + delay ≤ 20
          → is_some (
              wait_for_connection fuel
                (suc n)
                (if ltb delay 4 then delay * 2 else delay)
                (elapsed + took n + delay))
            ≡ true)
      → is_some (wait_for_connection (suc fuel) n delay elapsed) ≡ true
  unfolding wait_for_connection
  wait-round fuel n delay elapsed more = elim (Bool-cases (probe n)) [
    | inl p ↦ rw p refl
    | inr p ↦ elim (Bool-cases (ltb 20 (elapsed + took n + delay))) [
      | inl e ↦ rw (p, e) refl
      | inr e ↦ rw (p, e) (more (ground arith))
    ]
  ]

  -- From delays of four seconds on, with the fuel for the time that is left.
  wait-late :
      (fuel n elapsed : ℕ)
      → 20 < elapsed + fuel * 4
      → elapsed ≤ 20
      → is_some (wait_for_connection fuel n 4 elapsed) ≡ true
  wait-late zero n elapsed h l = absurd (omega arith)
  wait-late (suc fuel) n elapsed h l =
      wait-round fuel n 4 elapsed
        (λ m. wait-late fuel (suc n) (elapsed + took n + 4) (omega arith) m)

  -- However long the calls take and whichever of them fail, the wait for the metadata service ends
  -- within seven calls, with an answer or with the error that it did not become ready.
  pub wait_for_connection-ends : is_some (wait_for_connection 7 0 1 0) ≡ true
  wait_for_connection-ends = wait-round 6 0 1 0 (λ a.
      wait-round 5 1 2 (0 + took 0 + 1)
        (λ b. wait-late 5 2 (0 + took 0 + 1 + took 1 + 2) (omega arith) b))

-- `waitVersion`: at least one second is asked for.
unfoldable pub max_wait : ℤ → ℤ
unfolding int_lt
max_wait n = if int_lt n (pos 1) then pos 1 else n

-- Each text differs from the one before it.
unfoldable pub all_new : Text → List Text → Bool
unfolding text_eq
all_new version [] = true
all_new version (next ∷ rest) = not (text_eq next version) && all_new next rest

unfoldable pub last_or : Text → List Text → Text
last_or version [] = version
last_or version (next ∷ rest) = last_or next rest

-- The loop of `OnChangeWithError` over the answers to `waitVersion`, with the calls of the callback
-- and the error at which it ends, if it has.
module _ {E : Type 0} where
  unfoldable pub on_change : Text → List (Outcome E Text) → List Text × Option E
  unfolding text_eq
  on_change version [] = ([], none)
  on_change version (err e ∷ rest) = ([], some e)
  on_change version (ok next ∷ rest) =
      let more = on_change next rest in
      if not (text_eq next version) then (next ∷ more.0, more.1) else on_change version rest

  unfoldable pub on_change_with_error : List (Outcome E Text) → List Text × Option E
  unfolding on_change
  on_change_with_error answers = on_change (codes "init") answers

  -- The versions that are answered before the first error.
  unfoldable pub answered : List (Outcome E Text) → List Text
  answered [] = []
  answered (err e ∷ rest) = []
  answered (ok next ∷ rest) = next ∷ answered rest

  on_change-all_new :
      (version : Text) (answers : List (Outcome E Text))
      → all_new version (on_change version answers).0 ≡ true
  unfolding on_change all_new
  on_change-all_new version [] = refl
  on_change-all_new version (err e ∷ rest) = refl
  on_change-all_new version (ok next ∷ rest) = elim (Bool-cases (text_eq next version)) [
    | inl e ↦ rw e (on_change-all_new version rest)
    | inr e ↦ rw e (rw e (on_change-all_new next rest))
  ]

  on_change-last :
      (version : Text) (answers : List (Outcome E Text))
      → last_or version (on_change version answers).0 ≡ last_or version (answered answers)
  unfolding on_change last_or answered
  on_change-last version [] = refl
  on_change-last version (err e ∷ rest) = refl
  on_change-last version (ok next ∷ rest) = elim (Bool-cases (text_eq next version)) [
    | inl e ↦ rw e (
        on_change-last version rest
        ∙ ap (λ v. last_or v (answered rest)) (sym ((text_eq_iff next version).0 e)))
    | inr e ↦ rw e (on_change-last next rest)
  ]

  -- Over any answers of the metadata service, the callback never gets the version that it got last,
  -- nor `init` first; and what it got last is the version that was answered last before the first
  -- error, so no change is left unreported.
  pub on_change_with_error-reports :
      (answers : List (Outcome E Text))
      → let calls = (on_change_with_error answers).0 in
        (all_new (codes "init") calls ≡ true)
        × (last_or (codes "init") calls ≡ last_or (codes "init") (answered answers))
  unfolding on_change_with_error
  on_change_with_error-reports answers =
      (on_change-all_new (codes "init") answers, on_change-last (codes "init") answers)
