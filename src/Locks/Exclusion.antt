-- ===== src/Locks/Exclusion.antt =====
-- The grants and releases of a key by the goroutine of internal/locks/locks.go.
use load_balancer_controller.Base.{
  ℕ, ◌+◌, ◌≤◌, Bool, true, List, [], ◌∷◌, ◌≡◌, arith, if◌then◌else◌, is_some,
}
use load_balancer_controller.Base.Text.{Text, text_eq, text_eq_iff}
use load_balancer_controller.Base.Dict.{lookup, lookup-insert, lookup-delete}
use load_balancer_controller.Locks.{
  Operation, lock, unlock, Request, Response, unlocker, refused, silent, Locked, serve_op, serve,
  locker,
}

abbrev pub held : Text → Locked → Bool
held k locked = is_some (lookup k locked)

abbrev grant : Text → Response → ℕ
grant k (unlocker j) = if text_eq j k then 1 else 0
grant k refused = 0
grant k silent = 0

-- How often the key was granted.
abbrev pub grants : Text → List Response → ℕ
grants k [] = 0
grants k (a ∷ as') = grant k a + grants k as'

abbrev release : Text → Operation → Text → ℕ
release k lock j = 0
release k unlock j = if text_eq j k then 1 else 0

-- How often its release was asked for.
abbrev pub releases : Text → List Request → ℕ
releases k [] = 0
releases k (r ∷ rs) = release k r.op r.key + releases k rs

abbrev count_held : Text → Locked → ℕ
count_held k locked = if held k locked then 1 else 0

serve-grant :
    (k : Text) (op : Operation) (j : Text) (locked : Locked)
    → grant k (serve_op op j locked).0 + count_held k locked
      ≤ release k op j + count_held k (serve_op op j locked).1
unfolding serve_op
serve-grant k lock j locked = ground (arith, lookup-insert j k tt locked, text_eq_iff j k)
serve-grant k unlock j locked = ground (arith, lookup-delete j k locked)

locker-grants :
    (k : Text) (rs : List Request) (locked : Locked)
    → grants k (locker rs locked).0 + count_held k locked
      ≤ releases k rs + count_held k (locker rs locked).1
unfolding locker serve
locker-grants k [] locked = omega arith
locker-grants k (r ∷ rs) locked =
    omega
      (arith, serve-grant k r.op r.key locked, locker-grants k rs (serve_op r.op r.key locked).1)

count_held-le : (k : Text) (locked : Locked) → count_held k locked ≤ 1
count_held-le k locked = ground arith

-- Over any sequence of requests, from any state, a key is granted at most once more often than
-- its release was asked for.
pub locker_bounded :
    (k : Text) (rs : List Request) (locked : Locked)
    → grants k (locker rs locked).0 ≤ releases k rs + 1
locker_bounded k rs locked =
    omega (arith, locker-grants k rs locked, count_held-le k (locker rs locked).1)

-- While a key is held and its release is not asked for, it is never granted, whatever else
-- is requested, and it stays held.
pub locker_exclusive :
    (k : Text) (rs : List Request) (locked : Locked)
    → held k locked ≡ true
    → releases k rs ≡ 0
    → (grants k (locker rs locked).0 ≡ 0) × (held k (locker rs locked).1 ≡ true)
locker_exclusive k rs locked h n = ground (arith, locker-grants k rs locked)
