-- ===== src/Net/EventLoop.antt =====
-- include/network/EventLoop.hpp and src/EventLoop.cpp: the loop of a thread, the functors that it is
-- given to run, and the event descriptor that wakes it.
pub mod Runs
use hydrogen_web.Common.{
  ℕ, zero, suc, ◌+◌, Bool, true, false, ◌||◌, not, List, [], ◌∷◌, ◌++◌, ◌==◌, if◌then◌else◌,
}
use hydrogen_web.Common.Fault.{Result, ok, err, assertion, guard, ◌>>◌}

-- Where the loop's thread stands: outside `loop`, in `poll`, in the loop over the active channels, or in
-- `processFunctors` with the functors that are left. `_looping` is that it is not `stopped`, and
-- `_processingFunctors` that it is `processing`.
pub data Phase {ℓ} (F : Type ℓ) : Type ℓ where
  stopped polling handling : Phase F
  processing : List F → Phase F

-- `counter` is that of `_wakenfd`.
pub record EventLoop {ℓ} (F : Type ℓ) : Type ℓ where
  pub phase : Phase F
  pub quit : Bool
  pub thread_id : ℕ
  pub counter : ℕ
  pub unprocessed : List F

module _ {ℓ} {F : Type ℓ} where
  -- `EventLoop()`, in the thread with the given number.
  abbrev pub new_loop : ℕ → EventLoop F
  new_loop thread = record {
    phase = stopped;
    quit = false;
    thread_id = thread;
    counter = 0;
    unprocessed = [];
  }

  abbrev pub is_looping : Phase F → Bool
  is_looping stopped = false
  is_looping polling = true
  is_looping handling = true
  is_looping (processing fs) = true

  abbrev pub is_processing : Phase F → Bool
  is_processing stopped = false
  is_processing polling = false
  is_processing handling = false
  is_processing (processing fs) = true

  -- Whether the thread `current` is the loop's.
  abbrev pub is_in_loop_thread : ℕ → EventLoop F → Bool
  is_in_loop_thread current l = l.thread_id == current

  abbrev pub waken : EventLoop F → EventLoop F
  waken l = record l { counter = l.counter + 1 }

  -- `readFd`: the read sets the counter back.
  abbrev pub read_fd : EventLoop F → EventLoop F
  read_fd l = record l { counter = 0 }

  -- The part of `addToLoopThread` under the lock.
  abbrev pub push_functor : F → EventLoop F → EventLoop F
  push_functor f l = record l { unprocessed = l.unprocessed ++ f ∷ [] }

  -- Whether `addToLoopThread` goes on to `waken`.
  abbrev pub needs_waken : ℕ → EventLoop F → Bool
  needs_waken current l = not (is_in_loop_thread current l) || is_processing l.phase

  -- The part of `addToLoopThread` behind the lock.
  unfoldable pub go_on : ℕ → EventLoop F → EventLoop F
  go_on current l = if needs_waken current l then waken l else l

  -- `addToLoopThread`, with nothing between its two parts.
  unfoldable pub add_to_loop_thread : ℕ → F → EventLoop F → EventLoop F
  add_to_loop_thread current f l = go_on current (push_functor f l)

  -- `runInLoopThread`, where `run` is the call of a functor.
  unfoldable pub run_in_loop_thread :
      (F → EventLoop F → EventLoop F) → ℕ → F → EventLoop F → EventLoop F
  run_in_loop_thread run current f l =
      if is_in_loop_thread current l then run f l else add_to_loop_thread current f l

  unfoldable pub quit_loop : ℕ → EventLoop F → EventLoop F
  quit_loop current l =
      if is_in_loop_thread current l
      then record l { quit = true }
      else waken (record l { quit = true })

  -- The start of `loop`.
  unfoldable pub start : EventLoop F → Result (EventLoop F)
  start l =
      guard (not (is_looping l.phase)) assertion >> ok (record l { phase = polling; quit = false })

  -- The swap of `processFunctors`.
  abbrev pub take_functors : EventLoop F → EventLoop F
  take_functors l = record l { phase = processing l.unprocessed; unprocessed = [] }

  -- The test of the loop, behind `processFunctors`.
  abbrev pub next_turn : EventLoop F → EventLoop F
  next_turn l = record l { phase = if l.quit then stopped else polling }
