-- ===== src/Net/ThreadPool.antt =====
-- include/core/EventLoopThreadPool.hpp and src/EventLoopThreadPool.cpp: the loops that connections are
-- spread over. `Loop` stands for the address of a loop.
pub mod Rounds
use hydrogen_web.Common.{
  ℕ, zero, suc, ◌+◌, Bool, true, false, not, Option, none, some, List, [], ◌∷◌, ◌++◌, ◌==◌,
  if◌then◌else◌, length, get_elem?,
}
use hydrogen_web.Common.Fault.{Result, ok, err, assertion, out_of_bounds, stuck, guard, ◌>>=◌, ◌>>◌}

pub record EventLoopThreadPool {ℓ} (Loop : Type ℓ) : Type ℓ where
  pub main_loop : Loop
  pub num_threads : ℕ
  pub next_index : ℕ
  pub started : Bool
  pub loops : List Loop

module _ {ℓ} {Loop : Type ℓ} where
  -- The constructor.
  abbrev pub new_pool : Loop → ℕ → EventLoopThreadPool Loop
  new_pool loop num_threads = record {
    main_loop = loop;
    num_threads = num_threads;
    next_index = 0;
    started = false;
    loops = [];
  }

  -- The loop of `run`. The temporary `EventLoopThread` joins its thread at the end of the statement:
  -- `ended` are the loops that are told to quit, in order, and behind them the join waits for ever.
  unfoldable pub start_loops : ℕ → List Loop → List Loop → Result (List Loop)
  start_loops zero ended loops = ok loops
  start_loops (suc n) [] loops = err stuck
  start_loops (suc n) (loop ∷ ended) loops = start_loops n ended (loops ++ loop ∷ [])

  -- `run`
  unfoldable pub run : List Loop → EventLoopThreadPool Loop → Result (EventLoopThreadPool Loop)
  run ended p =
      guard (not p.started) assertion
      >> (start_loops p.num_threads ended p.loops >>= λ ls.
          ok (record p { started = true; loops = ls }))

  -- The part of `nextLoop` behind the test for loops, at the loop of `next_index`.
  abbrev pub turn_to :
      EventLoopThreadPool Loop → Option Loop → Result (Loop × EventLoopThreadPool Loop)
  turn_to p none = err out_of_bounds
  turn_to p (some loop) =
      let next = p.next_index + 1 in
      ok (loop, record p { next_index = if next == length p.loops then 0 else next })

  -- `nextLoop`
  unfoldable pub next_loop : EventLoopThreadPool Loop → Result (Loop × EventLoopThreadPool Loop)
  next_loop p = elim p.loops [
    | [] ↦ ok (p.main_loop, p)
    | l ∷ ls ↦ turn_to p (get_elem? p.loops p.next_index)
  ]
