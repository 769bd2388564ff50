-- ===== src/Http/Context/Rejection.antt =====
-- HttpContext: the rounds of a run on bytes with more behind them, and a request that is rejected.
use hydrogen_web.Common.{
  ℕ, zero, suc, ◌+◌, ◌≡◌, ◌≢◌, refl, sym, ap, ◌∙◌, inl, inr, true, false, ◌++◌, arith, Bool-cases,
}
use hydrogen_web.Common.Bytes.{Bytes}
use hydrogen_web.Common.Fault.{Result, ok, err, stuck, ◌>>=◌, ok-injective}
use hydrogen_web.HyBuffer.{HyBuffer, readable_bytes}
use hydrogen_web.HyBuffer.Window.{IsValid, contents}
use hydrogen_web.Http.Context.{
  HttpContext, expect_body, all_ok, Progress, stop, step, parse_loop, parse_request,
}
use hydrogen_web.Http.Context.Termination.{Ends, parse_request-Ends}
use hydrogen_web.Http.Context.Congruence.{loop_on, loop_off}
use hydrogen_web.Http.Context.Growth.{Grows, same_round, waits, rejects, settles, fails, step-Grows}

-- More fuel changes nothing.
pub more_fuel :
    (f d now : ℕ) (p : Progress)
    → parse_loop f now p ≢ err stuck
    → parse_loop (f + d) now p ≡ parse_loop f now p
unfolding parse_loop
more_fuel zero d now p h = absurd (h refl)
more_fuel (suc f) d now p h =
    let e : suc f + d ≡ suc (f + d) = omega arith in
    ap (λ n. parse_loop n now p) e ∙ elim (Bool-cases p.has_more) [
      | inl on ↦
          loop_on (f + d) now p on
          ∙ onward (more_fuel f d now) (step p.context.state p now)
              (λ k. h (loop_on f now p on ∙ k))
          ∙ sym (loop_on f now p on)
      | inr off ↦ loop_off (f + d) now p off ∙ sym (loop_off f now p off)
    ]
  where
    onward :
        ((q : Progress)
          → parse_loop f now q ≢ err stuck
          → parse_loop (f + d) now q ≡ parse_loop f now q)
        → (r : Result Progress) → (r >>= parse_loop f now) ≢ err stuck
        → (r >>= parse_loop (f + d) now) ≡ (r >>= parse_loop f now)
    onward ih (err e) k = refl
    onward ih (ok q) k = ih q k

-- A loop that has been told to stop ends where it is.
pub stopped :
    (fuel now : ℕ) (q p : Progress) → q.has_more ≡ false → parse_loop fuel now q ≡ ok p → q ≡ p
unfolding parse_loop
stopped zero now q p h run = cc
stopped (suc fuel) now q p h run = ok-injective (sym (loop_off fuel now q h) ∙ run)

module _ (now : ℕ) (ys : Bytes) where
  -- The run on more bytes ends, and rejects the request.
  abbrev Rejects : Progress → HyBuffer → Type 0
  Rejects q b =
      (m : ℕ) × (r : Progress) × (parse_loop m now (record q { buffer = b }) ≡ ok r)
      × (r.correct ≡ false)

  Rejects-after :
      (fuel : ℕ) (p q : Progress) (b : HyBuffer)
      → p.correct ≡ false
      → p.context.state ≢ all_ok
      → p.context.state ≢ expect_body
      → q.correct ≡ true
      → q.has_more ≡ true
      → ((q' : Progress) (b' : HyBuffer)
          → q'.correct ≡ true
          → IsValid q'.buffer
          → IsValid b'
          → q'.has_more ≡ true
          → contents b' ≡ contents q'.buffer ++ ys
          → parse_loop fuel now q' ≡ ok p
          → Rejects q' b')
      → (r s : Result Progress) → Grows ys q r s
      → step q.context.state (record q { buffer = b }) now ≡ s
      → (r >>= parse_loop fuel now) ≡ ok p
      → Rejects q b
  Rejects-after fuel p q b t ne nb c h ih _ _ (same_round q' d on keeps v' w' more') e run =
      let (m, r, f, k) = ih q' d (keeps c) v' w' on more' run in
      (
        suc m,
        r,
        loop_on m now (record q { buffer = b }) h ∙ ap (λ x. x >>= parse_loop m now) e ∙ f,
        k,
      )
  Rejects-after fuel p q b t ne nb c h ih _ s (waits _) e run =
      let same = stopped fuel now (stop q) p refl run in
      let k : true ≡ false = sym c ∙ ap (λ x. x.correct) same ∙ t in cc
  Rejects-after fuel p q b t ne nb c h ih _ _ (rejects q' s' o wrong o' wrong') e run = (
    2,
    s',
    loop_on 1 now (record q { buffer = b }) h
        ∙ ap (λ x. x >>= parse_loop 1 now) e
        ∙ loop_off 0 now s' o',
    wrong',
  )
  Rejects-after fuel p q b t ne nb c h ih _ s (settles q' _ st) e run =
      let same = stopped fuel now q' p st.0 run in
      elim st.1 [
        | inl body ↦ absurd (nb (ap (λ x. x.context.state) (sym same) ∙ body))
        | inr done ↦ absurd (ne (ap (λ x. x.context.state) (sym same) ∙ done))
      ]
  Rejects-after fuel p q b t ne nb c h ih _ s (fails f _) e run = cc

  rejected :
      (fuel : ℕ) (p q : Progress) (b : HyBuffer)
      → p.correct ≡ false
      → p.context.state ≢ all_ok
      → p.context.state ≢ expect_body
      → q.correct ≡ true
      → IsValid q.buffer
      → IsValid b
      → q.has_more ≡ true
      → contents b ≡ contents q.buffer ++ ys
      → parse_loop fuel now q ≡ ok p
      → Rejects q b
  unfolding parse_loop
  rejected zero p q b t ne nb c v w h more run = cc
  rejected (suc fuel) p q b t ne nb c v w h more run =
      Rejects-after fuel p q b t ne nb c h
        (λ q' b' c' v' w' h' more' run'. rejected fuel p q' b' t ne nb c' v' w' h' more' run')
        (step q.context.state q now) (step q.context.state (record q { buffer = b }) now)
        (step-Grows q.context.state q now b ys refl v w h more) refl
        (sym (loop_on fuel now q h) ∙ run)

pub not_stuck : (r : Result Progress) → Ends r → r ≢ err stuck
not_stuck (err e) (inl h) k = cc
not_stuck (err e) (inr h) k = cc
not_stuck (ok p) h k = cc

-- The parser has rejected a first part in front of the body.
pub refused :
    (c : HttpContext) (now : ℕ) (first both_parts : HyBuffer) (ys : Bytes) (p : Progress)
    → c.state ≢ all_ok
    → IsValid first
    → IsValid both_parts
    → parse_request c first now ≡ ok p
    → p.correct ≡ false
    → p.context.state ≢ all_ok
    → p.context.state ≢ expect_body
    → contents both_parts ≡ contents first ++ ys
    → (r : Progress) × (parse_request c both_parts now ≡ ok r) × (r.correct ≡ false)
unfolding parse_request
refused c now first both_parts ys p nc v₁ v₂ run t ne nb e₂ =
    let start : HyBuffer → Progress =
      λ b. record { correct = true; has_more = true; context = c; buffer = b } in
    let (m, r, f, k) =
      rejected now ys (3 + readable_bytes first) p (start first) both_parts t ne nb refl v₁ v₂ refl
        e₂ run in
    let n = 3 + readable_bytes both_parts in
    let swapped : n + m ≡ m + n = omega arith in
    (
      r,
      sym (
            more_fuel n m now (start both_parts)
              (not_stuck _ (parse_request-Ends c both_parts now v₂ nc)))
          ∙ ap (λ x. parse_loop x now (start both_parts)) swapped
          ∙ more_fuel m n now (start both_parts) (λ e. (let w : ok r ≡ err stuck = sym f ∙ e in cc))
          ∙ f,
      k,
    )
