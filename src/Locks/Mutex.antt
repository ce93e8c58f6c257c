-- ===== src/Locks/Mutex.antt =====
-- The goroutine of internal/locks/locks.go against a specification: for each key, whether it is
-- held. The specification has no map, and no order of its entries.
use load_balancer_controller.Base.{
  Bool, true, false, List, [], ◌∷◌, ◌≡◌, refl, ap, ◌∙◌, if◌then◌else◌, is_some, arith, inl, inr,
  Bool-cases,
}
use load_balancer_controller.Base.Text.{Text, text_eq}
use load_balancer_controller.Base.Dict.{lookup, lookup-insert, lookup-delete}
use load_balancer_controller.Locks.{
  Operation, lock, unlock, Request, Response, unlocker, refused, silent, Locked, serve_op, serve,
  locker,
}
use load_balancer_controller.Locks.Exclusion.{held}
use mathlib.Core.Path.{fun_ext}

-- Which keys are held.
abbrev pub Mutexes : Type 0
Mutexes = Text → Bool

abbrev pub set : Text → Bool → Mutexes → Mutexes
set key b m k = if text_eq key k then b else m k

-- A lock of a free key is granted and holds it, a lock of a held key is refused, and an unlock
-- frees the key, held or not.
unfoldable pub specified : Operation → Text → Mutexes → Response × Mutexes
specified lock key m = if m key then (refused, m) else (unlocker key, set key true m)
specified unlock key m = (silent, set key false m)

unfoldable pub specified_run : List Request → Mutexes → List Response × Mutexes
unfolding specified
specified_run [] m = ([], m)
specified_run (r ∷ rs) m =
    let (answer, m') = specified r.op r.key m in
    let (answers, last) = specified_run rs m' in (answer ∷ answers, last)

-- The map as a state of the specification.
abbrev pub view : Locked → Mutexes
view locked k = held k locked

seen : Response × Locked → Response × Mutexes
seen (answer, locked) = (answer, view locked)

serve-seen :
    (op : Operation) (key : Text) (locked : Locked)
    → seen (serve_op op key locked) ≡ specified op key (view locked)
unfolding serve_op specified seen
serve-seen lock key locked = elim (Bool-cases (is_some (lookup key locked))) [
  | inl e ↦ rw e refl
  | inr e ↦
      rw e
        (ap (λ m. (unlocker key, m)) (fun_ext (λ k. ground (arith, lookup-insert key k tt locked))))
]
serve-seen unlock key locked =
    ap (λ m. (silent, m)) (fun_ext (λ k. ground (arith, lookup-delete key k locked)))

-- The goroutine implements the specification: over every sequence of requests, from every state of
-- its map, the responses are those that the specification gives, in the same order, and at the end
-- the keys of the map are the held ones.
pub locker-specified :
    (rs : List Request) (locked : Locked)
    → ((locker rs locked).0 ≡ (specified_run rs (view locked)).0)
      × (view (locker rs locked).1 ≡ (specified_run rs (view locked)).1)
unfolding locker serve specified_run seen
locker-specified [] locked = (refl, refl)
locker-specified (r ∷ rs) locked =
    let next = serve_op r.op r.key locked in
    let e = serve-seen r.op r.key locked in
    let (a, b) = locker-specified rs next.1 in
    let answer = ap (λ (x : Response × Mutexes). x.0) e in
    let state = ap (λ (x : Response × Mutexes). x.1) e in
    (
      ap (λ x. x ∷ (locker rs next.1).0) answer
          ∙ ap (λ l. (specified r.op r.key (view locked)).0 ∷ l)
              (a ∙ ap (λ m. (specified_run rs m).0) state),
      b ∙ ap (λ m. (specified_run rs m).1) state,
    )
