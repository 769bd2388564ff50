-- ===== src/Http/Context/Congruence.antt =====
-- HttpContext: what `parseRequest` does depends on the readable bytes of the buffer alone, and not on where
-- they stand in its vector.
use hydrogen_web.Common.{
  ℕ, zero, suc, ◌+◌, ◌-◌, ◌<◌, ◌≡◌, refl, sym, ap, subst, ◌∙◌, inl, inr, true, false, [], take,
  drop, arith, Option-cases, Bool-cases, if◌then◌else◌, ◌==◌, ◌%◌, ◌^◌,
}
use hydrogen_web.Common.Bytes.{Bytes, codes, index_of, index_of-lt}
use hydrogen_web.Common.Fault.{Result, ok, err, ◌>>=◌}
use hydrogen_web.HyBuffer.{HyBuffer, readable_bytes, clear_until}
use hydrogen_web.HyBuffer.Window.{IsValid, contents}
use hydrogen_web.HyBuffer.Reading.{readable_lem}
use hydrogen_web.HyBuffer.Searching.{get_crlf_lem}
use hydrogen_web.Http.Request.{get_header}
use hydrogen_web.Http.Context.{
  HttpRequestState, expect_request_line, expect_headers, expect_body, all_ok, Progress, fail, stoi,
  entered, complete, body_entry, body_loop, step_body, step, parse_loop,
}
use hydrogen_web.Http.Context.Termination.{body_entry_cases}
use hydrogen_web.Http.Context.Alike.{
  Agree, both, both_fail, searched, same_size, cleared, request_line_Agree, headers_Agree,
}

-- Behind the last entry the reader index is behind the writer index, and nothing is left to read.
nothing_left :
    (b : HyBuffer) (n : ℕ) → IsValid b → n ≡ readable_bytes b + 1 → contents (clear_until b n) ≡ []
unfolding clear_until
nothing_left b n v e =
    let z : b.writer_index - (b.reader_index + n) % 2 ^ 64 ≡ 0 = omega arith in
    ap (λ k. take k (drop ((b.reader_index + n) % 2 ^ 64) b.buffer)) z

entry_Agree :
    (p : Progress) (b : HyBuffer) (content : Bytes) (a e : ℕ) (f g : Progress → Result Progress)
    → (a < e
        → Agree (f (entered p content a e)) (g (entered (record p { buffer = b }) content a e)))
    → Agree
        (body_entry p content a e >>= f)
        (body_entry (record p { buffer = b }) content a e >>= g)
entry_Agree p b content a e f g h = elim (body_entry_cases p content a e) [
  | inl (n, k) ↦ elim (body_entry_cases (record p { buffer = b }) content a e) [
    | inl (_, l) ↦ rw (k, l) (both_fail _)
    | inr (y, _) ↦ absurd (omega arith)
  ]
  | inr (y, k) ↦ elim (body_entry_cases (record p { buffer = b }) content a e) [
    | inl (n, _) ↦ absurd (omega arith)
    | inr (_, l) ↦ rw (k, l) (h y)
  ]
]

body_loop-Agree :
    (fuel : ℕ) (p : Progress) (b : HyBuffer)
    → IsValid p.buffer
    → IsValid b
    → contents b ≡ contents p.buffer
    → Agree (body_loop fuel p) (body_loop fuel (record p { buffer = b }))
unfolding body_loop
body_loop-Agree zero p b v w same = both_fail _
body_loop-Agree (suc fuel) p b v w same =
    let (_, n, a, r) = searched p b v w same in
    elim (Option-cases (index_of b'=' (contents p.buffer))) [
      | inl e ↦ rw ((get_crlf_lem v).2, a, e) (both (fail p) b same (λ e. cc))
      | inr (i, e) ↦
          rw ((get_crlf_lem v).2, a, e, readable_lem v, r, (get_crlf_lem v).1, n)
            (elim (Option-cases (index_of b'&' (contents p.buffer))) [
              | inl k ↦
                  rw (k, same_size p b v w same)
                    (entry_Agree p b (contents p.buffer) i (readable_bytes p.buffer)
                      (λ q. ok (complete q)) (λ q. ok (complete q))
                      λ _.
                        both (complete (entered p (contents p.buffer) i (readable_bytes p.buffer)))
                          (clear_until b (readable_bytes p.buffer + 1))
                          (nothing_left b (readable_bytes p.buffer + 1) w
                              (ap (λ n. n + 1) (sym (same_size p b v w same)))
                            ∙ sym (nothing_left p.buffer (readable_bytes p.buffer + 1) v refl))
                          (λ e. cc))
              | inr (j, k) ↦ rw (k) (
                  entry_Agree p b (contents p.buffer) i j (body_loop fuel) (body_loop fuel) λ y.
                    (let (c, x, z) =
                        cleared p b v w same (j + 1)
                          (omega (arith, index_of-lt b'&' (contents p.buffer) j k)) in
                      body_loop-Agree fuel (entered p (contents p.buffer) i j)
                        (clear_until b (j + 1)) x z c))
            ])
    ]

body_Agree :
    (p : Progress) (b : HyBuffer)
    → IsValid p.buffer
    → IsValid b
    → contents b ≡ contents p.buffer
    → Agree (step_body p) (step_body (record p { buffer = b }))
unfolding step_body
body_Agree p b v w same = go (stoi (get_header p.context.request (codes "Content-Length")))
  where
    go :
        (r : Result ℕ)
        → Agree
            (r >>= λ n.
              if n == readable_bytes p.buffer % 2 ^ 32
              then body_loop (suc (readable_bytes p.buffer)) p
              else ok (fail p))
            (r >>= λ n.
              if n == readable_bytes b % 2 ^ 32
              then body_loop (suc (readable_bytes b)) (record p { buffer = b })
              else ok (fail (record p { buffer = b })))
    go (err e) = both_fail e
    go (ok n) = elim (Bool-cases (n == readable_bytes p.buffer % 2 ^ 32)) [
      | inl e ↦
          rw (same_size p b v w same, e)
            (body_loop-Agree (suc (readable_bytes p.buffer)) p b v w same)
      | inr e ↦ rw (same_size p b v w same, e) (both (fail p) b same (λ e. cc))
    ]

step-Agree :
    (s : HttpRequestState) (p : Progress) (now : ℕ) (b : HyBuffer)
    → IsValid p.buffer
    → IsValid b
    → contents b ≡ contents p.buffer
    → Agree (step s p now) (step s (record p { buffer = b }) now)
unfolding step
step-Agree expect_request_line p now b v w same = request_line_Agree p b v w same now
step-Agree expect_headers p now b v w same = headers_Agree p b v w same
step-Agree expect_body p now b v w same = body_Agree p b v w same
step-Agree all_ok p now b v w same = both p b same (λ _. (v, w))

pub loop_on :
    (fuel now : ℕ) (p : Progress)
    → p.has_more ≡ true
    → parse_loop (suc fuel) now p ≡ (step p.context.state p now >>= parse_loop fuel now)
unfolding parse_loop
loop_on fuel now p h =
    ap (λ m. elim m [ false ↦ ok p | true ↦ step p.context.state p now >>= parse_loop fuel now ]) h

pub loop_off :
    (fuel now : ℕ) (p : Progress) → p.has_more ≡ false → parse_loop (suc fuel) now p ≡ ok p
unfolding parse_loop
loop_off fuel now p h =
    ap (λ m. elim m [ false ↦ ok p | true ↦ step p.context.state p now >>= parse_loop fuel now ]) h

-- A loop from two buffers with the same readable bytes.
pub parse_loop-Agree :
    (fuel now : ℕ) (p : Progress) (b : HyBuffer)
    → contents b ≡ contents p.buffer
    → (p.has_more ≡ true → IsValid p.buffer × IsValid b)
    → Agree (parse_loop fuel now p) (parse_loop fuel now (record p { buffer = b }))
unfolding parse_loop
parse_loop-Agree zero now p b same valid = both_fail _
parse_loop-Agree (suc fuel) now p b same valid = elim (Bool-cases p.has_more) [
  | inl h ↦
      subst (λ r. Agree r (parse_loop (suc fuel) now (record p { buffer = b })))
        (sym (loop_on fuel now p h))
        (subst (Agree (step p.context.state p now >>= parse_loop fuel now))
          (sym (loop_on fuel now (record p { buffer = b }) h))
          (later (parse_loop-Agree fuel now)
            (step-Agree p.context.state p now b (valid h).0 (valid h).1 same)))
  | inr h ↦
      subst (λ r. Agree r (parse_loop (suc fuel) now (record p { buffer = b })))
        (sym (loop_off fuel now p h))
        (subst (Agree (ok p)) (sym (loop_off fuel now (record p { buffer = b }) h))
          (both p b same valid))
]
  where
    later :
        ((q : Progress) (c : HyBuffer)
          → contents c ≡ contents q.buffer
          → (q.has_more ≡ true → IsValid q.buffer × IsValid c)
          → Agree (parse_loop fuel now q) (parse_loop fuel now (record q { buffer = c })))
        → {r s : Result Progress} → Agree r s
        → Agree (r >>= parse_loop fuel now) (s >>= parse_loop fuel now)
    later again (both_fail e) = both_fail e
    later again (both q c same valid) = again q c same valid
