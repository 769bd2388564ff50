-- ===== src/Tests/Programs.antt =====
-- Tests of src/robustio.cpp, src/TimerQueue.cpp and application/hydrogenWeb.cpp.
use hydrogen_web.Common.{
  ℕ, zero, suc, ◌<◌, ◌≡◌, ◌≢◌, refl, sym, ap, ap₂, ◌∙◌, Bool, true, false, some, List, [], ◌∷◌,
  ◌++◌, arith, length, take, drop, min, take-append-drop, length-take,
}
use hydrogen_web.Common.Bytes.{Bytes, codes}
use hydrogen_web.Common.Fault.{ok}
use hydrogen_web.Io.{
  Reply, arrived, failed, readn, new_riob, readlineb, WriteReply, wrote, refused, writen,
}
use hydrogen_web.Io.Lines.{Lines, readlineb-Lines}
use hydrogen_web.Io.Writing.{IsSink, Writes, writen-Writes}
use hydrogen_web.Io.Reading.{IsFile, Reads, readn-Reads}
use hydrogen_web.Timing.{
  Timer, TimerQueue, place, add_timer_in_loop_thread, insert, reset_timerfd, rearm, timer_handler,
  reset, reinsert, get_expiration,
}
use hydrogen_web.Timing.Order.{IsOrdered, AllDue, NoneDue, get_expiration_lem}
use hydrogen_web.Timing.Armed.{
  IsArmed, AllBack, Has, add_timer_in_loop_thread-IsArmed, timer_handler-IsArmed,
}
use hydrogen_web.Http.Request.{HttpRequest, empty_request}
use hydrogen_web.App.{Outside, mapped, row}

-- A file that hands out two bytes at a time, without interruptions.
abbrev read_two : ℕ → Bytes → Reply × Bytes
read_two n w = (arrived (take (min n 2) w), drop (min n 2) w)

reply_bytes : Reply → Bytes
reply_bytes (arrived bs) = bs
reply_bytes (failed again) = []

no_bytes : (k : ℕ) (w : Bytes) → 0 < k → take k w ≡ [] → drop k w ≡ []
no_bytes zero w h e = absurd (omega arith)
no_bytes (suc k) [] h e = refl
no_bytes (suc k) (x ∷ xs) h e = cc

two_bytes :
    (n : ℕ) (w w' bs : Bytes)
    → read_two n w ≡ (arrived bs, w')
    → (take (min n 2) w ≡ bs) × (drop (min n 2) w ≡ w')
unfolding reply_bytes
two_bytes n w w' bs h = (ap (λ r. reply_bytes r.0) h, ap (λ r. r.1) h)

is_arrival : Reply → Bool
is_arrival (arrived bs) = true
is_arrival (failed again) = false

not_failed : (n : ℕ) (w w' : Bytes) (again : Bool) → read_two n w ≢ (failed again, w')
unfolding is_arrival
not_failed n w w' again h = let e : true ≡ false = ap (λ r. is_arrival r.0) h in cc

read_two-IsFile : IsFile read_two (λ w. w) (λ w. 0)
read_two-IsFile = record {
  takes = λ n w w' bs h.
      let (t, d) = two_bytes n w w' bs h in
      sym (take-append-drop (min n 2) w) ∙ ap₂ (λ x y. x ++ y) t d;
  bounded =
      λ n w w' bs h. omega (arith, ap length (two_bytes n w w' bs h).0, length-take (min n 2) w);
  calm = λ n w w' bs h. omega arith;
  ends = λ n w w' h.
      let (t, d) = two_bytes (suc n) w w' [] h in
      sym d ∙ no_bytes (min (suc n) 2) w (omega arith) t;
  keeps = λ n w w' again h. absurd (not_failed n w w' again h);
  tires = λ n w w' h. absurd (not_failed n w w' true h);
}

readn-Reads_example :
    Reads read_two (λ w. w) 5 (codes "hydrogen") (readn read_two 5 5 (codes "hydrogen"))
readn-Reads_example =
    readn-Reads read_two (λ w. w) (λ w. 0) read_two-IsFile 5 5 (codes "hydrogen") (omega arith)

readlineb-Lines_example :
    Lines read_two
      (λ w. w)
      (λ w. 0)
      80
      (new_riob (codes "GET" ++ 10 ∷ codes "rest"))
      (readlineb read_two 1 80 (new_riob (codes "GET" ++ 10 ∷ codes "rest")))
readlineb-Lines_example =
    readlineb-Lines read_two (λ w. w) (λ w. 0) read_two-IsFile 80 1
      (new_riob (codes "GET" ++ 10 ∷ codes "rest")) (omega arith) (omega arith)

-- A file that takes three bytes at a time.
abbrev write_three : Bytes → Bytes → WriteReply × Bytes
write_three bs w = (wrote (min 3 (length bs)), w ++ take (min 3 (length bs)) bs)

taken_of : WriteReply → ℕ
taken_of (wrote k) = k
taken_of (refused again) = 0

is_taken : WriteReply → Bool
is_taken (wrote k) = true
is_taken (refused again) = false

not_refused : (bs w w' : Bytes) (again : Bool) → write_three bs w ≢ (refused again, w')
unfolding is_taken
not_refused bs w w' again h = let e : true ≡ false = ap (λ r. is_taken r.0) h in cc

three_bytes :
    (bs w w' : Bytes) (k : ℕ)
    → write_three bs w ≡ (wrote k, w')
    → (min 3 (length bs) ≡ k) × (w ++ take (min 3 (length bs)) bs ≡ w')
unfolding taken_of
three_bytes bs w w' k h = (ap (λ r. taken_of r.0) h, ap (λ r. r.1) h)

write_three-IsSink : IsSink write_three (λ w. w) (λ w. 0)
write_three-IsSink = record {
  takes = λ bs w w' k h.
      let (n, e) = three_bytes bs w w' k h in
      (sym e ∙ ap (λ m. w ++ take m bs) n, omega arith, omega arith);
  idles = λ b bs w w' h. let (n, e) = three_bytes (b ∷ bs) w w' 0 h in absurd (omega arith);
  keeps = λ bs w w' again h. absurd (not_refused bs w w' again h);
  tires = λ bs w w' h. absurd (not_refused bs w w' true h);
}

writen-Writes_example :
    Writes write_three
      (λ w. w)
      (codes "hydrogen")
      (codes ">")
      (writen write_three 8 false (codes "hydrogen") (codes ">"))
writen-Writes_example =
    writen-Writes write_three (λ w. w) (λ w. 0) write_three-IsSink (codes "hydrogen") (codes ">") 8
      false (omega arith)

abbrev timer : ℕ → ℕ → Timer
timer time address = record { end_time = time; interval = 10; repeat = true; pointer = address }

abbrev two_timers : List Timer
two_timers = timer 5 1 ∷ timer 9 2 ∷ []

two_timers-IsOrdered : IsOrdered two_timers
two_timers-IsOrdered = (refl, tt)

get_expiration_lem_example :
    ((get_expiration 7 two_timers).0 ++ (get_expiration 7 two_timers).1 ≡ two_timers)
    × AllDue 7 (get_expiration 7 two_timers).0
    × NoneDue 7 (get_expiration 7 two_timers).1
get_expiration_lem_example = get_expiration_lem 7 two_timers two_timers-IsOrdered

abbrev a_queue : TimerQueue
a_queue = record {
  timers = two_timers;
  armed = some (record { set_at = 1; tv_sec = 0; tv_nsec = 4000 });
}

a_queue-IsArmed : IsArmed a_queue
a_queue-IsArmed = (record { set_at = 1; tv_sec = 0; tv_nsec = 4000 }, refl, omega arith, refl)

add_timer_in_loop_thread-IsArmed_example : IsArmed (record {
  timers = timer 4 3 ∷ two_timers;
  armed = some (record { set_at = 1; tv_sec = 0; tv_nsec = 3000 });
})
unfolding add_timer_in_loop_thread insert place reset_timerfd
add_timer_in_loop_thread-IsArmed_example =
    add_timer_in_loop_thread-IsArmed 1 (timer 4 3) a_queue _ a_queue-IsArmed refl

abbrev left_over : TimerQueue
left_over = record a_queue { timers = timer 9 2 ∷ [] }

abbrev handled : TimerQueue
handled = record {
  timers = timer 9 2 ∷ timer 17 1 ∷ [];
  armed = some (record { set_at = 8; tv_sec = 0; tv_nsec = 1000 });
}

timer_handler-IsArmed_example :
    AllBack 7 (get_expiration 7 two_timers).0 handled.timers
    × ((u : Timer) → Has u left_over.timers → Has u handled.timers)
    × IsArmed handled
unfolding timer_handler get_expiration reset reinsert insert place rearm reset_timerfd
timer_handler-IsArmed_example =
    timer_handler-IsArmed (λ ts q. ok q) 7 8 a_queue left_over handled refl refl

abbrev outside : Outside ℕ
outside = record {
  read_file = λ w path. mapped path;
  open_db = λ w. true;
  do_sql = λ sql w. (row, w);
  exec_sql = λ sql w. (some ((codes "h" ∷ []) ∷ []), w);
  validate_password = λ password hash. true;
  generate_hash = λ password. some password;
  now = λ w. w;
  html_path = codes "html";
  object_path = codes "object";
}

abbrev request_for : Bytes → HttpRequest
request_for path = record empty_request { path = path }
