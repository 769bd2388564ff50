-- ===== src/Timing.antt =====
-- include/core/TimerQueue.hpp, Timer.hpp and Timestamp.hpp with their sources: the timers of an event
-- loop, in the order of their times, and the descriptor that is armed for the first of them.
-- A `Timestamp` is its count of microseconds.
pub mod Order
pub mod Armed
use hydrogen_web.Common.{
  ℕ, ◌+◌, ◌-◌, ◌*◌, ◌/◌, ◌%◌, Bool, true, false, ◌&&◌, ◌||◌, Option, none, some, List, [], ◌∷◌,
  ◌==◌, ltb, leb, if◌then◌else◌,
}
use hydrogen_web.Common.Fault.{Result, ok, err, assertion, guard, ◌>>=◌, ◌>>◌}

-- `pointer` is the address of the timer, which breaks ties in the set.
pub record Timer : Type 0 where
  pub end_time : ℕ
  pub interval : ℕ
  pub repeat : Bool
  pub pointer : ℕ

-- `Timer::restart`
abbrev pub restart : Timer → ℕ → Timer
restart t now = if t.repeat then record t { end_time = now + t.interval } else t

-- What `timerfd_settime` was last given: the seconds and nanoseconds of `it_value`, counted from the
-- microsecond `set_at` of the call.
pub record Setting : Type 0 where
  pub set_at : ℕ
  pub tv_sec : ℕ
  pub tv_nsec : ℕ

-- `timers` is the set, in its order, and `armed` what the descriptor was last set to.
pub record TimerQueue : Type 0 where
  pub timers : List Timer
  pub armed : Option Setting

-- The order of the entries of the set: by time, then by address.
abbrev pub before : Timer → Timer → Bool
before s t = ltb s.end_time t.end_time || (s.end_time == t.end_time && ltb s.pointer t.pointer)

abbrev pub same : Timer → Timer → Bool
same s t = s.end_time == t.end_time && s.pointer == t.pointer

-- `std::set::insert`, and whether the entry was not there before.
unfoldable pub place : Timer → List Timer → List Timer × Bool
place t [] = (t ∷ [], true)
place t (s ∷ ts) =
    let rest = place t ts in
    if before t s
    then (t ∷ s ∷ ts, true)
    else if same t s
    then (s ∷ ts, false)
    else (s ∷ rest.0, rest.1)

-- Whether `expiration` comes before the time of every entry.
abbrev pub is_first : ℕ → List Timer → Bool
is_first expiration [] = true
is_first expiration (s ∷ ts) = ltb expiration s.end_time

-- `TimerQueue::insert`
unfoldable pub insert : Timer → TimerQueue → Result (Bool × TimerQueue)
insert t q =
    let r = place t q.timers in
    guard r.1 assertion >> ok (is_first t.end_time q.timers, record q { timers = r.0 })

abbrev pub micro_secs_per_second : ℕ
micro_secs_per_second = 1000000

-- `TimerQueue::resetTimerfd`, at the time `now`: `settime` is whether `timerfd_settime` accepts the new
-- value. Where it does not, the error is logged, and the descriptor stays as it was. No caller looks at
-- the result of the function.
unfoldable pub reset_timerfd : Bool → ℕ → ℕ → TimerQueue → Result TimerQueue
reset_timerfd settime now expiration q =
    let micro_secs = expiration - now in
    guard (ltb now expiration) assertion
    >> ok (
        if settime
        then record q {
          armed = some (record {
            set_at = now;
            tv_sec = micro_secs / micro_secs_per_second;
            tv_nsec = micro_secs % micro_secs_per_second * 1000;
          });
        }
        else q)

-- `TimerQueue::addTimerInLoopThread`
unfoldable pub add_timer_in_loop_thread : Bool → ℕ → Timer → TimerQueue → Result TimerQueue
add_timer_in_loop_thread settime now t q =
    insert t q >>= λ r. if r.0 then reset_timerfd settime now t.end_time r.1 else ok r.1

-- `TimerQueue::getExpiration`: the entries that it takes out of the set, and those that stay.
unfoldable pub get_expiration : ℕ → List Timer → List Timer × List Timer
get_expiration now [] = ([], [])
get_expiration now (t ∷ ts) =
    let r = get_expiration now ts in if leb t.end_time now then (t ∷ r.0, r.1) else ([], t ∷ ts)

-- The loop of `TimerQueue::reset`.
unfoldable pub reinsert : List Timer → ℕ → TimerQueue → Result TimerQueue
reinsert [] now q = ok q
reinsert (t ∷ ts) now q =
    (if t.repeat then (insert (restart t now) q >>= λ r. ok r.1) else ok q) >>= λ q'.
    reinsert ts now q'

-- The last part of `TimerQueue::reset`: `clock` is the time then, later than `now`.
unfoldable pub rearm : Bool → ℕ → TimerQueue → Result TimerQueue
rearm settime clock q = elim q.timers [
  | [] ↦ ok q
  | t ∷ ts ↦ reset_timerfd settime clock t.end_time q
]

unfoldable pub reset : Bool → List Timer → ℕ → ℕ → TimerQueue → Result TimerQueue
reset settime expired now clock q = reinsert expired now q >>= λ q'. rearm settime clock q'

-- `TimerQueue::timerHandler`: the callbacks of the expired timers run between the two halves and may
-- add timers.
unfoldable pub timer_handler :
    (List Timer → TimerQueue → Result TimerQueue) → Bool → ℕ → ℕ → TimerQueue → Result TimerQueue
timer_handler run_callbacks settime now clock q =
    let r = get_expiration now q.timers in
    run_callbacks r.0 (record q { timers = r.1 }) >>= λ q'. reset settime r.0 now clock q'
