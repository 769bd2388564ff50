-- ===== src/Http/Context/Split.antt =====
-- HttpContext: a request that arrives in parts is parsed as if it had arrived at once.
use hydrogen_web.Common.{
  ℕ, zero, suc, ◌+◌, ◌≡◌, ◌≢◌, refl, sym, ap, subst, ◌∙◌, inl, inr, true, false, ◌++◌, arith,
  Bool-cases,
}
use hydrogen_web.Common.Bytes.{Bytes}
use hydrogen_web.Common.Fault.{Result, ok, ◌>>=◌}
use hydrogen_web.HyBuffer.{HyBuffer, readable_bytes}
use hydrogen_web.HyBuffer.Window.{IsValid, contents}
use hydrogen_web.Http.Context.{
  HttpContext, expect_body, all_ok, Progress, stop, step, parse_loop, parse_request,
}
use hydrogen_web.Http.Context.Termination.{parse_request-Ends}
use hydrogen_web.Http.Context.Alike.{Agree}
use hydrogen_web.Http.Context.Congruence.{loop_on, parse_loop-Agree}
use hydrogen_web.Http.Context.Growth.{Grows, same_round, waits, rejects, settles, fails, step-Grows}
use hydrogen_web.Http.Context.Rejection.{more_fuel, stopped, not_stuck, refused}

module _ (now : ℕ) (ys : Bytes) where
  -- The run on more bytes comes to where the first run has ended, with the rest of the bytes.
  abbrev Resumes : Progress → Progress → HyBuffer → Type 0
  Resumes p q b =
      (c : HyBuffer) × IsValid p.buffer
      × IsValid c
      × (contents c ≡ contents p.buffer ++ ys)
      × (k : ℕ) × ((m : ℕ)
          → parse_loop (k + m) now (record q { buffer = b })
            ≡ parse_loop m now (record p { has_more = true; buffer = c }))

  Resumes-after :
      (fuel : ℕ) (p q : Progress) (b : HyBuffer)
      → p.correct ≡ true
      → p.context.state ≢ all_ok
      → p.context.state ≢ expect_body
      → IsValid q.buffer
      → IsValid b
      → q.has_more ≡ true
      → contents b ≡ contents q.buffer ++ ys
      → ((q' : Progress) (b' : HyBuffer)
          → IsValid q'.buffer
          → IsValid b'
          → q'.has_more ≡ true
          → contents b' ≡ contents q'.buffer ++ ys
          → parse_loop fuel now q' ≡ ok p
          → Resumes p q' b')
      → (r s : Result Progress) → Grows ys q r s
      → step q.context.state (record q { buffer = b }) now ≡ s
      → (r >>= parse_loop fuel now) ≡ ok p
      → Resumes p q b
  Resumes-after fuel p q b t ne nb v w h more ih _ _ (same_round q' c on keeps v' w' more') e run =
      let (d, vp, vd, left, k, f) = ih q' c v' w' on more' run in
      (
        d,
        vp,
        vd,
        left,
        suc k,
        λ m.
            let n : suc k + m ≡ suc (k + m) = omega arith in
            ap (λ x. parse_loop x now (record q { buffer = b })) n
            ∙ loop_on (k + m) now (record q { buffer = b }) h
            ∙ ap (λ r. r >>= parse_loop (k + m) now) e
            ∙ f m,
      )
  Resumes-after fuel p q b t ne nb v w h more ih _ s (waits _) e run =
      subst (λ x. Resumes x q b) (stopped fuel now (stop q) p refl run)
        (
          b,
          v,
          w,
          more,
          0,
          λ m.
              let n : 0 + m ≡ m = omega arith in
              ap (λ x. parse_loop x now (record q { buffer = b })) n
              ∙ ap (λ x. parse_loop m now (record q { has_more = x; buffer = b })) h,
        )
  Resumes-after fuel p q b t ne nb v w h more ih _ _ (rejects q' s' o wrong o' wrong') e run =
      let same = stopped fuel now q' p o run in
      let k : true ≡ false = sym t ∙ ap (λ x. x.correct) (sym same) ∙ wrong in cc
  Resumes-after fuel p q b t ne nb v w h more ih _ s (settles q' _ st) e run =
      let same = stopped fuel now q' p st.0 run in
      elim st.1 [
        | inl body ↦ absurd (nb (ap (λ x. x.context.state) (sym same) ∙ body))
        | inr done ↦ absurd (ne (ap (λ x. x.context.state) (sym same) ∙ done))
      ]
  Resumes-after fuel p q b t ne nb v w h more ih _ s (fails f _) e run = cc

  resumes :
      (fuel : ℕ) (p q : Progress) (b : HyBuffer)
      → p.correct ≡ true
      → p.context.state ≢ all_ok
      → p.context.state ≢ expect_body
      → IsValid q.buffer
      → IsValid b
      → q.has_more ≡ true
      → contents b ≡ contents q.buffer ++ ys
      → parse_loop fuel now q ≡ ok p
      → Resumes p q b
  unfolding parse_loop
  resumes zero p q b t ne nb v w h more run = cc
  resumes (suc fuel) p q b t ne nb v w h more run =
      Resumes-after fuel p q b t ne nb v w h more
        (λ q' b' v' w' h' more' run'. resumes fuel p q' b' t ne nb v' w' h' more' run')
        (step q.context.state q now) (step q.context.state (record q { buffer = b }) now)
        (step-Grows q.context.state q now b ys refl v w h more) refl
        (sym (loop_on fuel now q h) ∙ run)

-- The parser has read a first part and does not fail on it; then the second part arrives behind what it
-- has left.
resumed :
    (c : HttpContext) (now : ℕ) (first both_parts second : HyBuffer) (ys : Bytes) (p : Progress)
    → c.state ≢ all_ok
    → IsValid first
    → IsValid both_parts
    → IsValid second
    → parse_request c first now ≡ ok p
    → p.correct ≡ true
    → p.context.state ≢ all_ok
    → p.context.state ≢ expect_body
    → contents both_parts ≡ contents first ++ ys
    → contents second ≡ contents p.buffer ++ ys
    → Agree (parse_request c both_parts now) (parse_request p.context second now)
unfolding parse_request
resumed c now first both_parts second ys p nc v₁ v₂ v₃ run t ne nb e₂ e₃ =
    let start : HttpContext → HyBuffer → Progress =
      λ x b. record { correct = true; has_more = true; context = x; buffer = b } in
    let (d, vp, vd, left, k, f) =
      resumes now ys (3 + readable_bytes first) p (start c first) both_parts t ne nb v₁ v₂ refl e₂
        run in
    let m = 3 + readable_bytes both_parts in
    let n = 3 + readable_bytes second in
    let whole : parse_loop m now (start c both_parts) ≡ parse_loop (m + n) now (start p.context d) =
      sym (
        more_fuel m (k + n) now (start c both_parts)
          (not_stuck _ (parse_request-Ends c both_parts now v₂ nc)))
      ∙ ap (λ x. parse_loop x now (start c both_parts))
          (let e : m + (k + n) ≡ k + (m + n) = omega arith in e)
      ∙ f (m + n)
      ∙ ap (λ x. parse_loop (m + n) now (record p { correct = x; has_more = true; buffer = d }))
          t in
    let rest : parse_loop n now (start p.context second)
        ≡ parse_loop (m + n) now (start p.context second) =
      sym (
        more_fuel n m now (start p.context second)
          (not_stuck _ (parse_request-Ends p.context second now v₃ ne)))
      ∙ ap (λ x. parse_loop x now (start p.context second))
          (let e : n + m ≡ m + n = omega arith in e) in
    subst (λ r. Agree r (parse_loop n now (start p.context second))) (sym whole)
      (subst (Agree (parse_loop (m + n) now (start p.context d))) (sym rest)
        (parse_loop-Agree (m + n) now (start p.context d) second (e₃ ∙ sym left) (λ _. (vd, v₃))))

-- What the run on both parts has to do with the run on the first, which has ended in `p`, and the run on
-- what that has left with the second part behind it.
pub data Divided (p : Progress) (both_parts resumes : Result Progress) : Type 0 where
  goes_on : p.correct ≡ true → Agree both_parts resumes → Divided p both_parts resumes
  bad_request :
      (r : Progress)
      → p.correct ≡ false
      → both_parts ≡ ok r
      → r.correct ≡ false
      → Divided p both_parts resumes

-- A request that arrives in two parts, at the same time, is parsed as if it had arrived at once, where the
-- first part neither completes the request nor reaches its body. Either the parser accepts the first part,
-- and its run on what it has left with the second part behind it ends like a run on both parts together, in
-- the same result, request and state, with the same bytes left; or it rejects the first part, and both parts
-- together too.
pub parse_request-Split :
    (c : HttpContext) (now : ℕ) (first both_parts second : HyBuffer) (ys : Bytes) (p : Progress)
    → c.state ≢ all_ok
    → IsValid first
    → IsValid both_parts
    → IsValid second
    → parse_request c first now ≡ ok p
    → p.context.state ≢ all_ok
    → p.context.state ≢ expect_body
    → contents both_parts ≡ contents first ++ ys
    → contents second ≡ contents p.buffer ++ ys
    → Divided p (parse_request c both_parts now) (parse_request p.context second now)
parse_request-Split c now first both_parts second ys p nc v₁ v₂ v₃ run ne nb e₂ e₃ =
    elim (Bool-cases p.correct) [
      | inl t ↦ goes_on t (resumed c now first both_parts second ys p nc v₁ v₂ v₃ run t ne nb e₂ e₃)
      | inr t ↦
          let (r, f, k) = refused c now first both_parts ys p nc v₁ v₂ run t ne nb e₂ in
          bad_request r t f k
    ]
