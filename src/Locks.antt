-- ===== src/Locks.antt =====
-- The application-wide key locks (internal/locks/locks.go): the goroutine `locker` over the
-- requests that reach its channel, in their order.
pub mod Exclusion
pub mod Mutex
use load_balancer_controller.Base.{
  ℕ, suc, Bool, true, false, ◌&&◌, Option, some, none, List, [], ◌∷◌, ◌++◌, if◌then◌else◌, is_some,
}
use load_balancer_controller.Base.Text.{Text, text_eq}
use load_balancer_controller.Base.Dict.{Dict, insert, lookup, delete}

pub data Operation : Type 0 where
  lock unlock : Operation

-- A `lockRequest`.
pub record Request : Type 0 where
  pub key : Text
  pub op : Operation

-- What comes back on the response channel: an unlocker for the key, nil, or nothing at all.
pub data Response : Type 0 where
  unlocker : Text → Response
  refused : Response
  silent : Response

-- `lockedItems`
abbrev pub Locked : Type 0
Locked = Dict (Unit {0})

unfoldable pub serve_op : Operation → Text → Locked → Response × Locked
unfolding lookup insert delete
serve_op lock key locked =
    if is_some (lookup key locked) then (refused, locked) else (unlocker key, insert key tt locked)
serve_op unlock key locked = (silent, delete key locked)

-- One round of the loop of `locker`.
unfoldable pub serve : Request → Locked → Response × Locked
unfolding serve_op
serve r locked = serve_op r.op r.key locked

-- The loop, with the responses in order.
unfoldable pub locker : List Request → Locked → List Response × Locked
unfolding serve
locker [] locked = ([], locked)
locker (r ∷ rs) locked =
    let (answer, locked') = serve r locked in
    let (answers, last) = locker rs locked' in (answer ∷ answers, last)
