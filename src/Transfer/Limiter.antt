-- ===== src/Transfer/Limiter.antt =====
-- taskLimiter of internal/drive/limiter.go: a FIFO semaphore whose limit may change. A waiter is a
-- number that stands for the pointer to it; its two flags live in the store that all holders of the
-- pointer share. Each function is one critical section of the mutex, and returns the waiters whose
-- ready channel it closes. A limit may be negative when it is set.
pub mod Dispatch
pub mod Slots
pub mod Owners
pub mod Cancelling
pub mod Fairness
pub mod Examples
use tdrive.Base.{
  ℕ, zero, suc, ◌+◌, ◌-◌, Bool, true, false, ◌&&◌, List, [], ◌∷◌, ◌++◌, ltb, ◌==◌, if◌then◌else◌,
}
use tdrive.Base.Int.{ℤ, pos, pos_part, ltb_ℤ}

pub record TaskLimiter : Type 0 where
  pub limit : ℕ
  pub active : ℕ
  pub queue : List ℕ
  pub granted : ℕ → Bool
  pub cancel : ℕ → Bool

abbrev pub at_least_one : ℤ → ℕ
at_least_one limit = if ltb_ℤ limit (pos 1) then 1 else pos_part limit

unfoldable pub new_task_limiter : ℤ → TaskLimiter
new_task_limiter limit = record {
  limit = at_least_one limit;
  active = 0;
  queue = [];
  granted = λ w. false;
  cancel = λ w. false;
}

abbrev pub set_flag : ℕ → (ℕ → Bool) → ℕ → Bool
set_flag w f v = if w == v then true else f v

-- The waiter at the front, gone from the queue.
abbrev pub skip_front : List ℕ → TaskLimiter → TaskLimiter
skip_front rest l = record {
  limit = l.limit;
  active = l.active;
  queue = rest;
  granted = l.granted;
  cancel = l.cancel;
}

abbrev pub grant_front : ℕ → List ℕ → TaskLimiter → TaskLimiter
grant_front w rest l = record {
  limit = l.limit;
  active = l.active + 1;
  queue = rest;
  granted = set_flag w (l.granted);
  cancel = l.cancel;
}

-- The loop of dispatchLocked; its first argument is the queue.
unfoldable pub dispatch_from : List ℕ → TaskLimiter → TaskLimiter × List ℕ
dispatch_from [] l = (l, [])
dispatch_from (w ∷ rest) l =
    let skipped = dispatch_from rest (skip_front rest l) in
    let given = dispatch_from rest (grant_front w rest l) in
    if ltb (l.active) (l.limit)
    then (if l.cancel w then skipped else (given.0, w ∷ given.1))
    else (l, [])

unfoldable pub dispatch : TaskLimiter → TaskLimiter × List ℕ
dispatch l = dispatch_from (l.queue) l

abbrev pub is_empty : List ℕ → Bool
is_empty [] = true
is_empty (x ∷ xs) = false

-- acquire up to its select, with a fresh waiter: whether it has a slot at once.
unfoldable pub enter : ℕ → TaskLimiter → TaskLimiter × Bool
enter w l =
    if ltb (l.active) (l.limit) && is_empty (l.queue)
    then (
      record {
        limit = l.limit;
        active = l.active + 1;
        queue = l.queue;
        granted = l.granted;
        cancel = l.cancel;
      },
      true,
    )
    else (
      record {
        limit = l.limit;
        active = l.active;
        queue = l.queue ++ w ∷ [];
        granted = l.granted;
        cancel = l.cancel;
      },
      false,
    )

-- The first occurrence is cut out of the queue.
abbrev pub remove_waiter : ℕ → List ℕ → List ℕ
remove_waiter w [] = []
remove_waiter w (x ∷ xs) = if x == w then xs else x ∷ remove_waiter w xs

-- The branch of the select in which the context is done. `l.active--` has no guard in the source; a
-- granted waiter holds a slot, so `active` is positive there.
unfoldable pub give_up : ℕ → TaskLimiter → TaskLimiter × List ℕ
give_up w l =
    if l.granted w
    then dispatch (record {
      limit = l.limit;
      active = l.active - 1;
      queue = l.queue;
      granted = l.granted;
      cancel = l.cancel;
    })
    else if l.cancel w
    then (l, [])
    else dispatch (record {
      limit = l.limit;
      active = l.active;
      queue = remove_waiter w (l.queue);
      granted = l.granted;
      cancel = set_flag w (l.cancel);
    })

unfoldable pub release : TaskLimiter → TaskLimiter × List ℕ
release l = dispatch (record {
  limit = l.limit;
  active = if ltb 0 (l.active) then l.active - 1 else l.active;
  queue = l.queue;
  granted = l.granted;
  cancel = l.cancel;
})

unfoldable pub set_limit : ℤ → TaskLimiter → TaskLimiter × List ℕ
set_limit limit l =
    if l.limit == at_least_one limit
    then (l, [])
    else dispatch (record {
      limit = at_least_one limit;
      active = l.active;
      queue = l.queue;
      granted = l.granted;
      cancel = l.cancel;
    })
