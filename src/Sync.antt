-- ===== src/Sync.antt =====
-- include/sem/sem.hpp, include/sem/sharedBuf.hpp and their sources: a semaphore over a mutex and a
-- condition variable, and a bounded buffer over two semaphores.
pub mod Waking
pub mod Threads
pub mod Balance
pub mod Sharing
use hydrogen_web.Common.{
  ℕ, zero, suc, ◌+◌, ◌-◌, Bool, true, false, List, [], ◌∷◌, ◌++◌, ◌==◌, ltb, if◌then◌else◌,
}
use hydrogen_web.Common.Fault.{Result, ok, err, out_of_bounds}

-- `asleep` is the number of threads inside `_cond.wait`, and `woken` the number of those that have been
-- notified and have not yet the lock again.
-- `_count` is an `int`, which the model does not bound: no buffer counts more than its size.
pub record Sem : Type 0 where
  pub count : ℕ
  pub asleep : ℕ
  pub woken : ℕ

-- `Sem(count)`
abbrev pub new_sem : ℕ → Sem
new_sem count = record { count = count; asleep = 0; woken = 0 }

-- The test of the loop in `wait`, under the lock, and what follows it: the thread goes to sleep, or it
-- leaves with the count one lower. The answer says whether it leaves.
unfoldable pub try_wait : Sem → Bool × Sem
try_wait s =
    if s.count == 0
    then (false, record s { asleep = s.asleep + 1 })
    else (true, record s { count = s.count - 1 })

-- A thread that was woken has the lock again, and tests once more.
abbrev pub wait_again : Sem → Bool × Sem
wait_again s = try_wait (record s { woken = s.woken - 1 })

-- A thread that sleeps is woken.
abbrev pub notify_one : Sem → Sem
notify_one s = if ltb 0 s.asleep then record s { asleep = s.asleep - 1; woken = s.woken + 1 } else s

-- `post`
unfoldable pub post : Sem → Sem
post s = notify_one (record s { count = s.count + 1 })

pub record SharedBuf {ℓ} (A : Type ℓ) : Type ℓ where
  pub buf : List A
  pub capacity : ℕ
  pub slots : Sem
  pub items : Sem

module _ {ℓ} {A : Type ℓ} where
  -- `SharedBuf(n)`
  abbrev pub new_buf : ℕ → SharedBuf A
  new_buf n = record { buf = []; capacity = n; slots = new_sem n; items = new_sem 0 }

  -- The part of `insert` under the lock.
  abbrev pub push_back : A → SharedBuf A → SharedBuf A
  push_back item b = record b { buf = b.buf ++ item ∷ [] }

  -- The part of `remove` under the lock; `front` of an empty buffer reads outside of it.
  abbrev pub pop_from : SharedBuf A → List A → Result (A × SharedBuf A)
  pop_from b [] = err out_of_bounds
  pop_from b (item ∷ rest) = ok (item, record b { buf = rest })

  unfoldable pub pop_front : SharedBuf A → Result (A × SharedBuf A)
  pop_front b = pop_from b b.buf
