-- ===== src/Sync/Waking.antt =====
-- Sem: the threads that use a semaphore, in any order. No wakeup is lost.
use hydrogen_web.Common.{ℕ, ◌≤◌, ◌<◌, arith}
use hydrogen_web.Sync.{Sem, new_sem, try_wait, wait_again, notify_one, post}

-- One thread passes the lock: it comes new to `wait`, comes back from its sleep, or posts; and a sleep
-- may end without a notification.
pub data Step : Sem → Sem → Type 0 where
  waits : (s : Sem) → Step s (try_wait s).1
  resumes : (s : Sem) → 0 < s.woken → Step s (wait_again s).1
  posts : (s : Sem) → Step s (post s)
  stirs : (s : Sem) → Step s (notify_one s)

pub data Reach (s : Sem) : Sem → Type 0 where
  here : Reach s s
  next : {t u : Sem} → Reach s t → Step t u → Reach s u

-- Where threads sleep, as many have been woken as could now pass.
abbrev pub IsServed : Sem → Type 0
IsServed s = 0 < s.asleep → s.count ≤ s.woken

pub Step-IsServed : {s t : Sem} → Step s t → IsServed s → IsServed t
unfolding try_wait post
Step-IsServed (waits s) i = ground arith
Step-IsServed (resumes s w) i = ground arith
Step-IsServed (posts s) i = ground arith
Step-IsServed (stirs s) i = ground arith

Reach-IsServed : {n : ℕ} {s : Sem} → Reach (new_sem n) s → IsServed s
Reach-IsServed here = λ h. absurd (omega arith)
Reach-IsServed (next r t) = Step-IsServed t (Reach-IsServed r)

-- Whatever threads wait and post, in any order: while a thread sleeps in `wait`, at least as many others
-- have been woken as the count would let pass.
pub Reach-woken : {n : ℕ} {s : Sem} → Reach (new_sem n) s → 0 < s.asleep → s.count ≤ s.woken
Reach-woken r h = Reach-IsServed r h
