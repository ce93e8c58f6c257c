-- ===== src/Events/Registration/Names.antt =====
-- The names that `RemoveExternalHandlers` goes through.
use load_balancer_controller.Base.{
  Bool, true, false, not, ◌&&◌, ◌||◌, List, [], ◌∷◌, ◌≡◌, refl, ◌∙◌, if◌then◌else◌, is_empty, any,
  arith, inl, inr, Bool-cases,
}
use load_balancer_controller.Base.Text.{Text, text_eq, text_eq_iff, text_eq_refl}
use load_balancer_controller.Base.Outcome.{Outcome, ok, err}
use load_balancer_controller.Events.Registration.{
  Api, Call, return, after_call, then_call, remove_old_handler, remove_unseen,
  remove_external_handlers,
}

-- A name that the loop does not pass over.
unfoldable pub is_target : Text → List Text → Text → Bool
unfolding text_eq any
is_target own seen name = not (is_empty name || text_eq name own || any (text_eq name) seen)

-- The names whose handlers are removed, in order.
unfoldable pub targets : Text → List Text → List Text → List Text
unfolding is_target
targets own seen [] = []
targets own seen (name ∷ names) =
    let past = targets own seen names in
    let more = targets own (name ∷ seen) names in
    if is_target own seen name then name ∷ more else past

-- No name is there twice.
unfoldable pub is_distinct : List Text → Bool
unfolding any text_eq
is_distinct [] = true
is_distinct (name ∷ names) = not (any (text_eq name) names) && is_distinct names

any-targets :
    (own : Text) (names seen : List Text) (k : Text)
    → any (text_eq k) (targets own seen names) ≡ any (text_eq k) names && is_target own seen k
unfolding targets any
any-targets own [] seen k = refl
any-targets own (name ∷ names) seen k = elim (Bool-cases (is_target own seen name)) [
  | inl e ↦ rw e (elim (Bool-cases (text_eq k name)) [
    | inl q ↦ rw (q, (text_eq_iff k name).0 q, e) refl
    | inr q ↦ rw (q, any-targets own names (name ∷ seen) k) (unfold is_target in ground arith)
  ])
  | inr e ↦ rw e (
      any-targets own names seen k ∙ elim (Bool-cases (text_eq k name)) [
        | inl q ↦ rw (q, (text_eq_iff k name).0 q, e) (ground arith)
        | inr q ↦ rw q refl
      ])
]

targets-is_distinct :
    (own : Text) (names seen : List Text) → is_distinct (targets own seen names) ≡ true
unfolding targets is_distinct
targets-is_distinct own [] seen = refl
targets-is_distinct own (name ∷ names) seen = elim (Bool-cases (is_target own seen name)) [
  | inl e ↦
      let none_left : any (text_eq name) (targets own (name ∷ seen) names) ≡ false =
        any-targets own names (name ∷ seen) name
        ∙ unfold is_target in rw (text_eq_refl name) (ground arith) in
      rw (e, none_left) (targets-is_distinct own names (name ∷ seen))
  | inr e ↦ rw e (targets-is_distinct own names seen)
]

module _ (S E : Type 0) (api : Api S E) where
  -- The old handlers of each name are removed, until a call fails.
  unfoldable pub remove_all : List Text → Call S E Bool
  unfolding then_call
  remove_all [] = return S E true
  remove_all (name ∷ names) =
      then_call S E (remove_old_handler S E api name) (λ _. remove_all names)

  after_call-eq :
      (f g : Bool → Call S E Bool) (r : Outcome E Bool × S)
      → ((b : Bool) (s : S) → f b s ≡ g b s)
      → after_call S E f r ≡ after_call S E g r
  unfolding after_call
  after_call-eq f g (err e, s) h = refl
  after_call-eq f g (ok b, s) h = h b s

  remove_unseen-targets :
      (own : Text) (names seen : List Text) (s : S)
      → remove_unseen S E api own seen names s ≡ remove_all (targets own seen names) s
  unfolding remove_unseen remove_all targets is_target then_call
  remove_unseen-targets own [] seen s = refl
  remove_unseen-targets own (name ∷ names) seen s =
      elim (Bool-cases (is_empty name || text_eq name own || any (text_eq name) seen)) [
        | inl e ↦ rw e (remove_unseen-targets own names seen s)
        | inr e ↦ rw e (
            after_call-eq _ _ (remove_old_handler S E api name s)
              (λ b s'. remove_unseen-targets own names (name ∷ seen) s'))
      ]

  -- Removing the handlers of a list of names is removing those of its names other than the empty
  -- one and the router's own, one after the other until a call fails, each of them exactly once.
  pub remove_external_handlers-targets :
      (own : Text) (names : List Text) (s : S) (k : Text)
      → (remove_external_handlers S E api own names s ≡ remove_all (targets own [] names) s)
        × (is_distinct (targets own [] names) ≡ true)
        × (any (text_eq k) (targets own [] names)
            ≡ any (text_eq k) names && not (is_empty k || text_eq k own))
  unfolding remove_external_handlers
  remove_external_handlers-targets own names s k = (
    remove_unseen-targets own names [] s,
    targets-is_distinct own names [],
    any-targets own names [] k ∙ unfold is_target any in ground arith,
  )
