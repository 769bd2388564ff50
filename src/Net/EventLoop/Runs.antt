-- ===== src/Net/EventLoop/Runs.antt =====
-- EventLoop: the runs of a loop among other threads. No functor is lost or overtaken, and the loop does
-- not sleep on one.
use hydrogen_web.Common.{
  ℕ, suc, ◌+◌, ◌<◌, ◌≤◌, ◌≡◌, ◌≢◌, refl, sym, ap, ◌∙◌, Bool, true, false, not, List, [], ◌∷◌, ◌++◌,
  ◌==◌, ==_iff, if◌then◌else◌, arith, append_assoc, append-nil, ◌⊎◌, inl, inr, subst, Bool-cases,
}
use hydrogen_web.Common.Fault.{ok, guard-eq-ok, ok-injective}
use hydrogen_web.Net.EventLoop.{
  Phase, stopped, polling, handling, processing, EventLoop, new_loop, waken, read_fd, push_functor,
  add_to_loop_thread, quit_loop, start, take_functors, next_turn, is_in_loop_thread, needs_waken,
  is_looping, is_processing, go_on,
}

-- A loop with the threads around it: `owed` counts those inside `addToLoopThread`, behind its lock,
-- `unwoken` the functors waiting that the loop's own thread added outside of `loop`, and `added` and `executed` are the functors in the order in which they were added and run.
pub record World {ℓ} (F : Type ℓ) : Type ℓ where
  pub loop : EventLoop F
  pub owed : ℕ
  pub unwoken : ℕ
  pub added : List F
  pub executed : List F

module _ {ℓ} {F : Type ℓ} where
  -- The functors taken by `processFunctors` and not yet run.
  abbrev pub taken : Phase F → List F
  taken stopped = []
  taken polling = []
  taken handling = []
  taken (processing fs) = fs

  pub data Step : World F → World F → Type ℓ where
    -- Another thread is inside `addToLoopThread`: first the part under the lock, later
    -- what comes behind it.
    pushes :
        (w : World F) (f : F)
        → Step w (record w {
          loop = push_functor f w.loop;
          owed = suc w.owed;
          added = w.added ++ f ∷ [];
        })
    goes_on :
        (w : World F) (current n : ℕ)
        → w.owed ≡ suc n
        → is_in_loop_thread current w.loop ≡ false
        → Step w (record w { loop = go_on current w.loop; owed = n })
    -- The loop's own thread adds a functor, in a callback or in a functor.
    adds :
        (w : World F) (f : F)
        → is_processing w.loop.phase ≡ true ⊎ w.loop.phase ≡ handling
        → Step w (record w {
          loop = add_to_loop_thread w.loop.thread_id f w.loop;
          added = w.added ++ f ∷ [];
        })
    -- It adds one outside of `loop`.
    adds_outside :
        (w : World F) (f : F)
        → w.loop.phase ≡ stopped
        → Step w (record w {
          loop = add_to_loop_thread w.loop.thread_id f w.loop;
          unwoken = suc w.unwoken;
          added = w.added ++ f ∷ [];
        })
    quits : (w : World F) (current : ℕ) → Step w (record w { loop = quit_loop current w.loop })
    starts : (w : World F) (l : EventLoop F) → start w.loop ≡ ok l → Step w (record w { loop = l })
    polls :
        (w : World F)
        → w.loop.phase ≡ polling
        → Step w (record w { loop = record w.loop { phase = handling } })
    reads : (w : World F) → w.loop.phase ≡ handling → Step w (record w { loop = read_fd w.loop })
    takes :
        (w : World F)
        → w.loop.phase ≡ handling
        → Step w (record w { loop = take_functors w.loop; unwoken = 0 })
    runs :
        (w : World F) (f : F) (fs : List F)
        → w.loop.phase ≡ processing (f ∷ fs)
        → Step w (record w {
          loop = record w.loop { phase = processing fs };
          executed = w.executed ++ f ∷ [];
        })
    turns :
        (w : World F) → w.loop.phase ≡ processing [] → Step w (record w { loop = next_turn w.loop })

  pub data Reach : World F → World F → Type ℓ where
    here : {w : World F} → Reach w w
    more : {v w x : World F} → Reach v w → Step w x → Reach v x

  -- A loop that waits, or that is about to, has been woken or will be for the functors that it has,
  -- unless its own thread added some outside of `loop`.
  abbrev pub IsAwake : World F → Type ℓ
  IsAwake w =
      w.unwoken ≡ 0
      → w.loop.unprocessed ≢ []
      → w.loop.phase ≢ handling
      → 0 < w.loop.counter + w.owed

  -- The functors that were added are, in their order, those run, those taken and those waiting.
  abbrev pub IsComplete : World F → Type ℓ
  IsComplete w = w.added ≡ w.executed ++ (taken w.loop.phase ++ w.loop.unprocessed)

  is_stopped : (p : Phase F) → not (is_looping p) ≡ true → p ≡ stopped
  is_stopped stopped h = refl
  is_stopped polling h = cc
  is_stopped handling h = cc
  is_stopped (processing fs) h = cc

  start-ok :
      (l : EventLoop F) {l' : EventLoop F}
      → start l ≡ ok l'
      → (l.phase ≡ stopped) × (record l { phase = polling; quit = false } ≡ l')
  unfolding start
  start-ok l h =
      let (t, k) = guard-eq-ok (not (is_looping l.phase)) _ _ h in
      (is_stopped l.phase t, ok-injective k)

  -- A functor that the loop's own thread adds while it runs functors wakes the loop.
  add-processing :
      (l : EventLoop F) (f : F)
      → is_processing l.phase ≡ true
      → add_to_loop_thread l.thread_id f l ≡ waken (push_functor f l)
  unfolding add_to_loop_thread go_on
  add-processing l f h =
      let e : (l.thread_id == l.thread_id) ≡ true = (==_iff l.thread_id l.thread_id).1 refl in
      rw (h, e) refl

  -- Another thread wakes the loop, whatever the loop does.
  go_on-other :
      (current : ℕ) (l : EventLoop F)
      → is_in_loop_thread current l ≡ false
      → go_on current l ≡ waken l
  unfolding go_on
  go_on-other current l h = rw (h) refl

  add-parts :
      (current : ℕ) (l : EventLoop F) (f : F)
      → ((add_to_loop_thread current f l).phase ≡ l.phase)
        × ((add_to_loop_thread current f l).unprocessed ≡ l.unprocessed ++ f ∷ [])
  unfolding add_to_loop_thread go_on
  add-parts current l f = elim (Bool-cases (needs_waken current (push_functor f l))) [
    | inl e ↦ rw (e) (refl, refl)
    | inr e ↦ rw (e) (refl, refl)
  ]

  quit-parts :
      (current : ℕ) (l : EventLoop F)
      → ((quit_loop current l).phase ≡ l.phase)
        × ((quit_loop current l).unprocessed ≡ l.unprocessed)
        × (l.counter ≤ (quit_loop current l).counter)
  unfolding quit_loop
  quit-parts current l = elim (Bool-cases (is_in_loop_thread current l)) [
    | inl e ↦ rw (e) (refl, refl, omega arith)
    | inr e ↦ rw (e) (refl, refl, omega arith)
  ]

  Step-IsAwake : {w x : World F} → Step w x → IsAwake w → IsAwake x
  Step-IsAwake (pushes w f) a z n h = omega arith
  Step-IsAwake (goes_on w current k e o) a z n h = rw (go_on-other current w.loop o) (omega arith)
  Step-IsAwake (adds_outside w f p) a z n h = absurd (omega arith)
  Step-IsAwake (adds w f (inl p)) a z n h = rw (add-processing w.loop f p) (omega arith)
  Step-IsAwake (adds w f (inr p)) a z n h = absurd (h ((add-parts w.loop.thread_id w.loop f).0 ∙ p))
  Step-IsAwake (quits w current) a z n h =
      let (p, u, c) = quit-parts current w.loop in
      let was : 0 < w.loop.counter + w.owed = a z (λ e. n (u ∙ e)) (λ e. h (p ∙ e)) in omega arith
  Step-IsAwake (starts w l e) a z n h =
      let (p, eq) = start-ok w.loop e in
      subst (λ q. q.unprocessed ≢ [] → 0 < q.counter + w.owed) eq (λ m. a z m (λ k. cc)) n
  Step-IsAwake (polls w p) a z n h = absurd (h refl)
  Step-IsAwake (reads w p) a z n h = absurd (h p)
  Step-IsAwake (takes w p) a z n h = absurd (n refl)
  Step-IsAwake (runs w f fs p) a z n h = a z n (λ e. cc)
  Step-IsAwake (turns w p) a z n h = a z n (λ e. cc)

  -- The functors that a loop has taken and that wait.
  abbrev left : EventLoop F → List F
  left l = taken l.phase ++ l.unprocessed

  left-same :
      (l m : EventLoop F) → m.phase ≡ l.phase → m.unprocessed ≡ l.unprocessed → left m ≡ left l
  left-same l m p u = rw (p, u) refl

  left-push :
      (l m : EventLoop F) (f : F)
      → m.phase ≡ l.phase
      → m.unprocessed ≡ l.unprocessed ++ f ∷ []
      → left m ≡ left l ++ f ∷ []
  left-push l m f p u = rw (p, u) (sym (append_assoc (taken l.phase) l.unprocessed (f ∷ [])))

  push_complete :
      (added executed : List F) (l m : EventLoop F) (f : F)
      → left m ≡ left l ++ f ∷ []
      → added ≡ executed ++ left l
      → added ++ f ∷ [] ≡ executed ++ left m
  push_complete added executed l m f e c =
      ap (λ a. a ++ f ∷ []) c
      ∙ append_assoc executed (left l) (f ∷ [])
      ∙ ap (λ r. executed ++ r) (sym e)

  taken-turn : (q : Bool) → taken (if q then stopped else polling) ≡ []
  taken-turn true = refl
  taken-turn false = refl

  Step-IsComplete : {w x : World F} → Step w x → IsComplete w → IsComplete x
  Step-IsComplete (pushes w f) c =
      push_complete w.added w.executed w.loop (push_functor f w.loop) f
        (left-push w.loop (push_functor f w.loop) f refl refl) c
  Step-IsComplete (goes_on w current k e o) c = rw (go_on-other current w.loop o) c
  Step-IsComplete (adds_outside w f p) c =
      let l = add_to_loop_thread w.loop.thread_id f w.loop in
      let (q, u) = add-parts w.loop.thread_id w.loop f in
      push_complete w.added w.executed w.loop l f (left-push w.loop l f q u) c
  Step-IsComplete (adds w f p) c =
      let l = add_to_loop_thread w.loop.thread_id f w.loop in
      let (q, u) = add-parts w.loop.thread_id w.loop f in
      push_complete w.added w.executed w.loop l f (left-push w.loop l f q u) c
  Step-IsComplete (quits w current) c =
      let (p, u, _) = quit-parts current w.loop in
      c ∙ ap (λ r. w.executed ++ r) (sym (left-same w.loop (quit_loop current w.loop) p u))
  Step-IsComplete (starts w l e) c =
      let (p, eq) = start-ok w.loop e in
      subst (λ q. w.added ≡ w.executed ++ left q) eq
        (c ∙ ap (λ r. w.executed ++ (taken r ++ w.loop.unprocessed)) p)
  Step-IsComplete (polls w p) c = c ∙ ap (λ r. w.executed ++ (taken r ++ w.loop.unprocessed)) p
  Step-IsComplete (reads w p) c = c
  Step-IsComplete (takes w p) c =
      c
      ∙ ap (λ r. w.executed ++ (taken r ++ w.loop.unprocessed)) p
      ∙ ap (λ r. w.executed ++ r) (sym (append-nil w.loop.unprocessed))
  Step-IsComplete (runs w f fs p) c =
      c
      ∙ ap (λ r. w.executed ++ (taken r ++ w.loop.unprocessed)) p
      ∙ sym (append_assoc w.executed (f ∷ []) (fs ++ w.loop.unprocessed))
  Step-IsComplete (turns w p) c =
      c
      ∙ ap (λ r. w.executed ++ (taken r ++ w.loop.unprocessed)) p
      ∙ ap (λ r. w.executed ++ (r ++ w.loop.unprocessed)) (sym (taken-turn w.loop.quit))

  abbrev pub new_world : ℕ → World F
  new_world thread = record {
    loop = new_loop thread;
    owed = 0;
    unwoken = 0;
    added = [];
    executed = [];
  }

  Reach-IsAwake : {thread : ℕ} {w : World F} → Reach (new_world thread) w → IsAwake w
  Reach-IsAwake here = λ z n h. absurd (n refl)
  Reach-IsAwake (more r s) = Step-IsAwake s (Reach-IsAwake r)

  -- In every run of the loop among other threads, a loop that has functors waiting and is not about to
  -- run them has been woken, or a thread that has added one is inside `addToLoopThread` and will wake it,
  -- where none of the functors waiting was added by the loop's own thread outside of `loop`.
  pub Reach-owed :
      {thread : ℕ} {w : World F}
      → Reach (new_world thread) w
      → w.unwoken ≡ 0
      → w.loop.unprocessed ≢ []
      → w.loop.phase ≢ handling
      → 0 < w.loop.counter + w.owed
  Reach-owed r z n h = Reach-IsAwake r z n h

  -- In every run of the loop among other threads, functors are run in the order in which they were added, each once: those run, those
  -- taken and those waiting are all that were added.
  pub Reach-IsComplete : {thread : ℕ} {w : World F} → Reach (new_world thread) w → IsComplete w
  Reach-IsComplete here = refl
  Reach-IsComplete (more r s) = Step-IsComplete s (Reach-IsComplete r)
