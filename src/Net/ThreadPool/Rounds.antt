-- ===== src/Net/ThreadPool/Rounds.antt =====
-- EventLoopThreadPool: `nextLoop` goes round.
use hydrogen_web.Common.{
  ℕ, zero, suc, ◌+◌, ◌≡◌, ◌≢◌, refl, sym, ap, ◌∙◌, some, List, [], ◌∷◌, ◌++◌, ◌==◌, if◌then◌else◌,
  length, get_elem?, length-append, append_assoc, append-nil, arith,
}
use hydrogen_web.Common.Fault.{Result, ok, err, ◌>>=◌}
use hydrogen_web.Net.ThreadPool.{EventLoopThreadPool, next_loop}

module _ {ℓ} {Loop : Type ℓ} where
  -- The loops that `n` calls of `nextLoop` return, in order, and the pool behind them.
  unfoldable pub next_loops :
      ℕ → EventLoopThreadPool Loop → Result (List Loop × EventLoopThreadPool Loop)
  next_loops zero p = ok ([], p)
  next_loops (suc n) p = next_loop p >>= λ r. next_loops n r.1 >>= λ s. ok (r.0 ∷ s.0, s.1)

  get_elem?-middle :
      (before : List Loop) (l : Loop) (after : List Loop)
      → get_elem? (before ++ l ∷ after) (length before) ≡ some l
  get_elem?-middle [] l after = refl
  get_elem?-middle (b ∷ before) l after = get_elem?-middle before l after

  -- The pool whose next loop is that of the given index, or the first behind the last.
  abbrev turned : ℕ → EventLoopThreadPool Loop → EventLoopThreadPool Loop
  turned i p = record p { next_index = if i == length p.loops then 0 else i }

  turned-inside :
      (p : EventLoopThreadPool Loop) (before : List Loop) (l : Loop) (after : List Loop)
      → p.loops ≡ before ++ l ∷ after
      → turned (length before) p ≡ record p { next_index = length before }
  turned-inside p before l after e =
      let n = ap length e ∙ length-append before (l ∷ after) in
      let m : length p.loops ≢ length before = omega (arith, n) in ground (arith, m)

  turned-first :
      (p : EventLoopThreadPool Loop) (before : List Loop) (l : Loop) (after : List Loop)
      → p.loops ≡ before ++ l ∷ after
      → turned (length before + length (l ∷ after)) p ≡ turned 0 p
  turned-first p before l after e =
      let n = ap length e ∙ length-append before (l ∷ after) in ground (arith, n)

  next_loop-at :
      (p : EventLoopThreadPool Loop) (before : List Loop) (l : Loop) (after : List Loop)
      → p.loops ≡ before ++ l ∷ after
      → p.next_index ≡ length before
      → next_loop p ≡ ok (l, turned (length before + 1) p)
  unfolding next_loop
  next_loop-at p [] l after e i = rw (e, i) refl
  next_loop-at p (b ∷ before) l after e i = rw (e, i, get_elem?-middle before l after) refl

  next_loop-middle :
      (p : EventLoopThreadPool Loop) (before : List Loop) (l : Loop) (after : List Loop)
      → p.loops ≡ before ++ l ∷ after
      → next_loop (turned (length before) p) ≡ ok (l, turned (length before + 1) p)
  next_loop-middle p before l after e =
      ap (λ q. next_loop q) (turned-inside p before l after e)
      ∙ next_loop-at (record p { next_index = length before }) before l after e refl

  abbrev prefixed :
      List Loop
      → Result (List Loop × EventLoopThreadPool Loop)
      → Result (List Loop × EventLoopThreadPool Loop)
  prefixed mid r = r >>= λ s. ok (mid ++ s.0, s.1)

  repeated :
      (r : Result (List Loop × EventLoopThreadPool Loop)) (m : Loop) (mid : List Loop)
      → (prefixed mid r >>= λ s. ok (m ∷ s.0, s.1)) ≡ prefixed (m ∷ mid) r
  repeated (err e) m mid = refl
  repeated (ok s) m mid = refl

  same_result : (r : Result (List Loop × EventLoopThreadPool Loop)) → r ≡ prefixed [] r
  same_result (err e) = refl
  same_result (ok s) = refl

  next_loops-middle :
      (n : ℕ) (p : EventLoopThreadPool Loop) (before mid after : List Loop)
      → p.loops ≡ before ++ (mid ++ after)
      → next_loops (length mid + n) (turned (length before) p)
        ≡ prefixed mid (next_loops n (turned (length before + length mid) p))
  unfolding next_loops
  next_loops-middle n p before [] after e =
      let z : 0 + n ≡ n = omega arith in
      let y : length before + 0 ≡ length before = omega arith in
      rw (z, y) (same_result (next_loops n (turned (length before) p)))
  next_loops-middle n p before (m ∷ mid) after e =
      let k : length (before ++ m ∷ []) ≡ length before + 1 =
        length-append before (m ∷ []) ∙ omega arith in
      let step =
        next_loops-middle n p (before ++ m ∷ []) mid after
          (e ∙ sym (append_assoc before (m ∷ []) (mid ++ after))) in
      let sum : length before + 1 + length mid ≡ length before + suc (length mid) = omega arith in
      let more : suc (length mid) + n ≡ suc (length mid + n) = omega arith in
      rw (more, next_loop-middle p before m (mid ++ after) e, ← k, step, k, sum)
        (repeated (next_loops n (turned (length before + suc (length mid)) p)) m mid)

  -- From a pool whose next loop is `l`, as many calls of `nextLoop` as there are loops return each of
  -- them once, `l` first, those behind it next and those before it last, and leave the pool as it was.
  pub next_loops-round :
      (p : EventLoopThreadPool Loop) (before : List Loop) (l : Loop) (after : List Loop)
      → p.loops ≡ before ++ l ∷ after
      → p.next_index ≡ length before
      → next_loops (length (l ∷ after) + length before) p ≡ ok ((l ∷ after) ++ before, p)
  unfolding next_loops
  next_loops-round p before l after e i =
      let here = turned-inside p before l after e ∙ ap (λ k. record p { next_index = k }) (sym i) in
      let z : 0 + length before ≡ length before = omega arith in
      let y : length before + 0 ≡ length before = omega arith in
      let rest = next_loops-middle 0 p [] before (l ∷ after) e in
      ap (λ q. next_loops (length (l ∷ after) + length before) q) (sym here)
      ∙ next_loops-middle (length before) p before (l ∷ after) []
          (e ∙ ap (λ t. before ++ t) (sym (append-nil (l ∷ after))))
      ∙ ap (λ q. prefixed (l ∷ after) (next_loops (length before) q))
          (turned-first p before l after e)
      ∙ ap (λ k. prefixed (l ∷ after) (next_loops k (turned 0 p))) (sym y)
      ∙ ap (λ r. prefixed (l ∷ after) r) rest
      ∙ rw (z, here, append-nil before) refl
