-- ===== src/Timing/Armed.antt =====
-- TimerQueue: the descriptor is armed for the first timer.
use hydrogen_web.Common.{
  ℕ, ◌+◌, ◌-◌, ◌*◌, ◌/◌, ◌%◌, ◌≤◌, ◌<◌, ◌≡◌, refl, sym, ap, ◌∙◌, subst, Bool, true, false, Option,
  some, List, [], ◌∷◌, arith, ltb, Bool-cases, inl, inr, if◌then◌else◌,
}
use hydrogen_web.Common.Fault.{
  Result, ok, err, assertion, >>=-eq-ok, guard-eq-ok, ok-injective, ◌>>=◌,
}
use hydrogen_web.Timing.{
  Timer, Setting, TimerQueue, restart, before, same, place, insert, is_first, reset_timerfd,
  add_timer_in_loop_thread, reinsert, rearm, reset, timer_handler, get_expiration,
}

-- The descriptor was set to a value that the kernel takes, with less than a second of nanoseconds, and
-- fires exactly at the microsecond `time`.
abbrev pub Fires : Option Setting → ℕ → Type 0
Fires armed time =
    (s : Setting) × (armed ≡ some s)
    × (s.tv_nsec < 1000000000)
    × (1000 * s.set_at + 1000000000 * s.tv_sec + s.tv_nsec ≡ 1000 * time)

-- The descriptor fires for the first timer of the set.
abbrev pub IsArmed : TimerQueue → Type 0
IsArmed q = elim q.timers [ [] ↦ Unit {0} | t ∷ ts ↦ Fires q.armed t.end_time ]

-- The setting for `time`, made at `now`.
abbrev setting : ℕ → ℕ → Setting
setting now time = record {
  set_at = now;
  tv_sec = (time - now) / 1000000;
  tv_nsec = (time - now) % 1000000 * 1000;
}

setting-Fires : (now time : ℕ) → now < time → Fires (some (setting now time)) time
setting-Fires now time h = (setting now time, refl, omega arith, omega arith)

-- A new entry that is not the first leaves the first one in its place.
not_first :
    (t u : Timer) (ts : List Timer) (armed : Option Setting)
    → ltb t.end_time u.end_time ≡ false
    → Fires armed u.end_time
    → IsArmed (record { timers = (place t (u ∷ ts)).0; armed = armed })
unfolding place
not_first t u ts armed k e = elim (Bool-cases (before t u)) [
  | inl b ↦
      let same_time : t.end_time ≡ u.end_time = ground arith in
      rw (b) (subst (Fires armed) (sym same_time) e)
  | inr b ↦ elim (Bool-cases (same t u)) [ inl b' ↦ rw (b, b') e | inr b' ↦ rw (b, b') e ]
]

first :
    (t : Timer) (ts : List Timer) (armed : Option Setting)
    → is_first t.end_time ts ≡ true
    → Fires armed t.end_time
    → IsArmed (record { timers = (place t ts).0; armed = armed })
unfolding place
first t [] armed h e = e
first t (u ∷ ts) armed h e = let b : before t u ≡ true = ground arith in rw (b) e

insert_ok :
    (t : Timer) (q : TimerQueue) {r : Bool × TimerQueue}
    → insert t q ≡ ok r
    → (is_first t.end_time q.timers, record q { timers = (place t q.timers).0 }) ≡ r
unfolding insert
insert_ok t q h = ok-injective (guard-eq-ok (place t q.timers).1 _ _ h).1

reset_timerfd_ok :
    (now time : ℕ) (q : TimerQueue) {q' : TimerQueue}
    → reset_timerfd true now time q ≡ ok q'
    → (now < time) × (record q { armed = some (setting now time) } ≡ q')
unfolding reset_timerfd
reset_timerfd_ok now time q h =
    let (t, k) = guard-eq-ok (ltb now time) _ _ h in (ground arith, ok-injective k)

kept :
    (t : Timer) (ts : List Timer) (armed : Option Setting)
    → is_first t.end_time ts ≡ false
    → IsArmed (record { timers = ts; armed = armed })
    → IsArmed (record { timers = (place t ts).0; armed = armed })
kept t [] armed h a = cc
kept t (u ∷ ts) armed h a = not_first t u ts armed h a

-- The end of `addTimerInLoopThread`, behind an insertion with the result `(b, q)`.
armed_behind :
    (now time : ℕ) (b : Bool) (q : TimerQueue) {q' : TimerQueue}
    → (b ≡ true → now < time → IsArmed (record q { armed = some (setting now time) }))
    → (b ≡ false → IsArmed q)
    → (if b then reset_timerfd true now time q else ok q) ≡ ok q'
    → IsArmed q'
armed_behind now time true q f g h =
    let (l, e) = reset_timerfd_ok now time q h in subst IsArmed e (f refl l)
armed_behind now time false q f g h = subst IsArmed (ok-injective h) (g refl)

-- `addTimer`, where `timerfd_settime` accepts what it is given, keeps the descriptor armed for the first
-- timer of the set: it is set to fire at the very microsecond of that timer, with less than a second of
-- nanoseconds.
pub add_timer_in_loop_thread-IsArmed :
    (now : ℕ) (t : Timer) (q q' : TimerQueue)
    → IsArmed q
    → add_timer_in_loop_thread true now t q ≡ ok q'
    → IsArmed q'
unfolding add_timer_in_loop_thread
add_timer_in_loop_thread-IsArmed now t q q' a h =
    let (r, i, k) =
      >>=-eq-ok (insert t q) (λ r. if r.0 then reset_timerfd true now t.end_time r.1 else ok r.1)
        h in
    armed_behind now t.end_time (is_first t.end_time q.timers)
      (record q { timers = (place t q.timers).0 })
      (λ e l. first t q.timers (some (setting now t.end_time)) e (setting-Fires now t.end_time l))
      (λ e. kept t q.timers q.armed e a)
      (subst (λ s. (if s.0 then reset_timerfd true now t.end_time s.1 else ok s.1) ≡ ok q')
        (sym (insert_ok t q i)) k)

-- After the last part of `reset` the descriptor is armed for the first timer.
rearm-IsArmed :
    (clock : ℕ) (ts : List Timer) (armed : Option Setting) (q' : TimerQueue)
    → rearm true clock (record { timers = ts; armed = armed }) ≡ ok q'
    → (q'.timers ≡ ts) × IsArmed q'
unfolding rearm
rearm-IsArmed clock [] armed q' h =
    let e = ok-injective h in (sym (ap (λ q. q.timers) e), subst IsArmed e tt)
rearm-IsArmed clock (t ∷ ts) armed q' h =
    let (l, e) = reset_timerfd_ok clock t.end_time _ h in
    (sym (ap (λ q. q.timers) e), subst IsArmed e (setting-Fires clock t.end_time l))

-- The timer is in the set.
pub data Has (t : Timer) : List Timer → Type 0 where
  first_one : {ts : List Timer} → Has t (t ∷ ts)
  later : {s : Timer} {ts : List Timer} → Has t ts → Has t (s ∷ ts)

place-Has : (t : Timer) (ts : List Timer) → (place t ts).1 ≡ true → Has t (place t ts).0
unfolding place
place-Has t [] h = first_one
place-Has t (s ∷ ts) h = elim (Bool-cases (before t s)) [
  | inl e ↦ rw (e) first_one
  | inr e ↦ elim (Bool-cases (same t s)) [
    | inl e' ↦ let no : false ≡ true = rw (e, e') at h in cc
    | inr e' ↦
        let k : (place t ts).1 ≡ true = rw (e, e') at h in rw (e, e') (later (place-Has t ts k))
  ]
]

below :
    (u s : Timer) {ts ts' : List Timer} → (Has u ts → Has u ts') → Has u (s ∷ ts) → Has u (s ∷ ts')
below u s ih first_one = first_one
below u s ih (later k) = later (ih k)

place-keeps : (t u : Timer) (ts : List Timer) → Has u ts → Has u (place t ts).0
unfolding place
place-keeps t u [] h = elim h [ ]
place-keeps t u (s ∷ ts) h = elim (Bool-cases (before t s)) [
  | inl e ↦ rw (e) (later h)
  | inr e ↦ elim (Bool-cases (same t s)) [
    | inl e' ↦ rw (e, e') h
    | inr e' ↦ rw (e, e') (below u s (place-keeps t u ts) h)
  ]
]

insert-Has :
    (t : Timer) (q : TimerQueue) {r : Bool × TimerQueue}
    → insert t q ≡ ok r
    → Has t r.1.timers × ((u : Timer) → Has u q.timers → Has u r.1.timers)
unfolding insert
insert-Has t q h =
    let (k, _) = guard-eq-ok (place t q.timers).1 _ _ h in
    let e = insert_ok t q h in
    (
      subst (λ r. Has t r.1.timers) e (place-Has t q.timers k),
      λ u m. subst (λ r. Has u r.1.timers) e (place-keeps t u q.timers m),
    )

-- Each of the timers that repeats is in the set again, an interval after `now`.
abbrev pub AllBack : ℕ → List Timer → List Timer → Type 0
AllBack now [] set = Unit {0}
AllBack now (t ∷ ts) set =
    (t.repeat ≡ true → Has (record t { end_time = now + t.interval }) set) × AllBack now ts set

if_true {ℓ} : {A : Type ℓ} (b : Bool) (x y : A) → b ≡ true → (if b then x else y) ≡ x
if_true true x y e = refl
if_true false x y e = cc

-- One round of the loop of `reset`.
one_back :
    (t : Timer) (now : ℕ) (q : TimerQueue) {q' : TimerQueue}
    → (if t.repeat then (insert (restart t now) q >>= λ r. ok r.1) else ok q) ≡ ok q'
    → (t.repeat ≡ true → Has (record t { end_time = now + t.interval }) q'.timers)
      × ((u : Timer) → Has u q.timers → Has u q'.timers)
one_back t now q {q'} h = elim (Bool-cases t.repeat) [
  | inl e ↦
      let (r, run, k) =
        >>=-eq-ok (insert (restart t now) q) (λ r. ok r.1) (sym (if_true t.repeat _ _ e) ∙ h) in
      let (has, keeps) = insert-Has (restart t now) q run in
      let same_set = ap (λ p. p.timers) (ok-injective k) in
      let start : restart t now ≡ record t { end_time = now + t.interval } =
        if_true t.repeat (record t { end_time = now + t.interval }) t e in
      (
        λ _. subst (λ s. Has s q'.timers) start (subst (Has (restart t now)) same_set has),
        λ u m. subst (Has u) same_set (keeps u m),
      )
  | inr e ↦
      let same_set = ap (λ p. p.timers) (ok-injective (rw (e) at h)) in
      (λ k. absurd (let no : true ≡ false = sym k ∙ e in cc), λ u m. subst (Has u) same_set m)
]

reinsert-AllBack :
    (ts : List Timer) (now : ℕ) (q : TimerQueue) {q' : TimerQueue}
    → reinsert ts now q ≡ ok q'
    → AllBack now ts q'.timers × ((u : Timer) → Has u q.timers → Has u q'.timers)
unfolding reinsert
reinsert-AllBack [] now q h =
    let same_set = ap (λ p. p.timers) (ok-injective h) in (tt, λ u m. subst (Has u) same_set m)
reinsert-AllBack (t ∷ ts) now q h =
    let (q1, run, k) =
      >>=-eq-ok (if t.repeat then (insert (restart t now) q >>= λ r. ok r.1) else ok q)
        (λ q'. reinsert ts now q') h in
    let (back, keeps) = one_back t now q run in
    let (others, more) = reinsert-AllBack ts now q1 k in
    ((λ e. more _ (back e), others), λ u m. more u (keeps u m))

-- Where `timerHandler` ends, whatever the callbacks add, and `timerfd_settime` accepts what it is given:
-- each repeating timer that was due is in the set again, an interval after the time of the call; the
-- timers that the callbacks left are in it; and the descriptor is set to fire at the very microsecond of
-- the first timer of the set, with less than a second of nanoseconds.
pub timer_handler-IsArmed :
    (run_callbacks : List Timer → TimerQueue → Result TimerQueue) (now clock : ℕ)
    (q called q' : TimerQueue)
    → run_callbacks
        (get_expiration now q.timers).0
        (record q { timers = (get_expiration now q.timers).1 })
      ≡ ok called
    → timer_handler run_callbacks true now clock q ≡ ok q'
    → AllBack now (get_expiration now q.timers).0 q'.timers
      × ((u : Timer) → Has u called.timers → Has u q'.timers)
      × IsArmed q'
unfolding timer_handler reset
timer_handler-IsArmed run_callbacks now clock q called q' c h =
    let due = (get_expiration now q.timers).0 in
    let k = rw (c) at h in
    let (q2, run, l) = >>=-eq-ok (reinsert due now called) (λ p. rearm true clock p) k in
    let (back, keeps) = reinsert-AllBack due now called run in
    let (same_set, armed) = rearm-IsArmed clock q2.timers q2.armed q' l in
    (
      subst (AllBack now due) (sym same_set) back,
      λ u m. subst (Has u) (sym same_set) (keeps u m),
      armed,
    )

-- When the first timer falls due while the callbacks run, the last part of `reset` fails its assertion.
pub rearm_late :
    (settime : Bool) (clock : ℕ) (t : Timer) (ts : List Timer) (armed : Option Setting)
    → t.end_time ≤ clock
    → rearm settime clock (record { timers = t ∷ ts; armed = armed }) ≡ err assertion
unfolding rearm reset_timerfd
rearm_late settime clock t ts armed h = ground arith
