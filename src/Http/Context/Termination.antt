-- ===== src/Http/Context/Termination.antt =====
-- HttpContext: `parseRequest` ends, within the fuel of the model, and reads inside the buffer.
use native.Mathlib.Decide.{dec_lt}
use hydrogen_web.Common.{
  ℕ, zero, suc, ◌+◌, ◌≤◌, ◌<◌, ◌≡◌, ◌≢◌, refl, ◌⊎◌, inl, inr, Bool, true, false, arith, length,
  Option-cases, Bool-cases, if◌then◌else◌, ◌==◌, ◌%◌, ◌^◌, sym, subst,
}
use hydrogen_web.Common.Bytes.{Bytes, codes, index_of, index_of-lt}
use hydrogen_web.Common.Fault.{Fault, Result, ok, err, assertion, exception, ◌>>=◌}
use hydrogen_web.HyBuffer.{HyBuffer, readable_bytes, clear_until, crlf_index, get_eol}
use hydrogen_web.HyBuffer.Window.{IsValid, contents, length-contents}
use hydrogen_web.HyBuffer.Reading.{readable_lem}
use hydrogen_web.HyBuffer.Searching.{get_crlf_lem, crlf_index-found}
use hydrogen_web.Http.Request.{HttpRequest, get_header}
use hydrogen_web.Http.Context.{
  HttpContext, HttpRequestState, expect_request_line, expect_headers, expect_body, all_ok, Progress,
  fail, consume, after_request_line, step_request_line, end_of_headers, header_line, step_headers,
  stoi, entered, complete, body_entry, body_loop, step_body, step, parse_loop, parse_request,
}
use hydrogen_web.Http.Context.Line.{
  AssertOnly, ThrowOnly, parse_request_line-AssertOnly, stoi-ThrowOnly, clear_until_lem,
}

-- The faults that a run on a valid buffer can end in.
abbrev pub Raised : Fault → Type 0
Raised e = (e ≡ assertion) ⊎ (e ≡ exception)

-- One round on `n` readable bytes: the loop stops, or a valid buffer with fewer bytes is left and
-- the request is not complete yet.
abbrev pub Steps : ℕ → Result Progress → Type 0
Steps n (ok p) =
    (p.has_more ≡ false)
    ⊎ (IsValid p.buffer × (length (contents p.buffer) < n) × (p.context.state ≢ all_ok))
Steps n (err e) = Raised e

-- A run that has ended.
abbrev pub Ends : Result Progress → Type 0
Ends (ok p) = p.has_more ≡ false
Ends (err e) = Raised e

module _ (p : Progress) (v : IsValid p.buffer) where
  abbrev left : ℕ
  left = length (contents p.buffer)

  after_request_line-Steps :
      (now i : ℕ) (m : Bool × HttpRequest)
      → suc (suc i) ≤ left
      → Steps left (ok (after_request_line p now i m))
  unfolding after_request_line
  after_request_line-Steps now i (true, r) h =
      let c = clear_until_lem (i + 2) v (omega arith) in inr (c.1, omega arith, λ e. cc)
  after_request_line-Steps now i (false, r) h = inl refl

  parsed-Steps :
      (now i : ℕ) (m : Result (Bool × HttpRequest))
      → suc (suc i) ≤ left
      → AssertOnly m
      → Steps left (m >>= λ x. ok (after_request_line p now i x))
  parsed-Steps now i (ok m) h a = after_request_line-Steps now i m h
  parsed-Steps now i (err e) h a = inl a

  step_request_line-Steps : (now : ℕ) → Steps left (step_request_line p now)
  unfolding step_request_line
  step_request_line-Steps now = elim (Option-cases (crlf_index (contents p.buffer))) [
    | inl e ↦ rw ((get_crlf_lem v).0, e) (inl refl)
    | inr (i, e) ↦
        rw ((get_crlf_lem v).0, e, readable_lem v)
          (parsed-Steps now i _ (crlf_index-found (contents p.buffer) i e).0
            (parse_request_line-AssertOnly _ _))
  ]

  header_line-keeps :
      (content : Bytes) (i : ℕ)
      → p.context.state ≢ all_ok
      → ((header_line p content i).buffer ≡ p.buffer)
        × (((header_line p content i).has_more ≡ false)
            ⊎ ((header_line p content i).context.state ≢ all_ok))
  unfolding header_line end_of_headers
  header_line-keeps content i ne = ground arith

  consume-Steps :
      (q : Progress) (n : ℕ)
      → q.buffer ≡ p.buffer
      → ((q.has_more ≡ false) ⊎ (q.context.state ≢ all_ok))
      → 0 < n
      → n ≤ left
      → Steps left (ok (consume q n))
  consume-Steps q n e (inl h) pos le = inl h
  consume-Steps q n e (inr h) pos le =
      let c = clear_until_lem n v le in
      inr (
        subst (λ b. IsValid (clear_until b n)) (sym e) c.1,
        subst (λ b. length (contents (clear_until b n)) < left) (sym e) (omega arith),
        h,
      )

  step_headers-Steps : p.context.state ≢ all_ok → Steps left (step_headers p)
  unfolding step_headers
  step_headers-Steps ne = elim (Option-cases (crlf_index (contents p.buffer))) [
    | inl e ↦ rw ((get_crlf_lem v).0, e) (inl refl)
    | inr (i, e) ↦
        rw ((get_crlf_lem v).0, e, readable_lem v)
          (let k = header_line-keeps (contents p.buffer) i ne in
            let f = (crlf_index-found (contents p.buffer) i e).0 in
            consume-Steps (header_line p (contents p.buffer) i) (i + 2) k.0 k.1 (omega arith)
              (omega arith))
  ]

-- An entry whose `&` precedes its `=` throws; any other is added, and consumed with its `&`.
pub body_entry_cases :
    (p : Progress) (content : Bytes) (a e : ℕ)
    → ((e ≤ a) × (body_entry p content a e ≡ err exception))
      ⊎ ((a < e) × (body_entry p content a e ≡ ok (entered p content a e)))
unfolding body_entry
body_entry_cases p content a e = elim (dec_lt a e) [
  | yes h ↦ inr (h, ground arith)
  | no h ↦ inl (omega arith, ground arith)
]

completed-Ends :
    (p : Progress) (content : Bytes) (a e : ℕ)
    → Ends (body_entry p content a e >>= λ q. ok (complete q))
completed-Ends p content a e = elim (body_entry_cases p content a e) [
  | inl (_, h) ↦ rw h (inr refl)
  | inr (_, h) ↦ rw h refl
]

entered-Ends :
    (fuel : ℕ) (p : Progress) (content : Bytes) (a e : ℕ)
    → (a < e → Ends (body_loop fuel (entered p content a e)))
    → Ends (body_entry p content a e >>= body_loop fuel)
entered-Ends fuel p content a e ih = elim (body_entry_cases p content a e) [
  | inl (_, h) ↦ rw h (inr refl)
  | inr (l, h) ↦ rw h (ih l)
]

-- The loop over the entries of a body ends before its fuel.
body_loop-Ends :
    (fuel : ℕ) (p : Progress)
    → IsValid p.buffer
    → length (contents p.buffer) < fuel
    → Ends (body_loop fuel p)
unfolding body_loop
body_loop-Ends zero p v h = absurd (omega arith)
body_loop-Ends (suc fuel) p v h = elim (Option-cases (index_of b'=' (contents p.buffer))) [
  | inl e ↦ rw ((get_crlf_lem v).2, e) refl
  | inr (a, e) ↦
      rw ((get_crlf_lem v).2, e, readable_lem v, (get_crlf_lem v).1)
        (elim (Option-cases (index_of b'&' (contents p.buffer))) [
          | inl n ↦ rw n (completed-Ends p (contents p.buffer) a (get_eol p.buffer))
          | inr (s, n) ↦ rw n (
              entered-Ends fuel p (contents p.buffer) a s λ l.
                let c =
                  clear_until_lem (s + 1) v
                    (omega (arith, index_of-lt b'&' (contents p.buffer) s n)) in
                body_loop-Ends fuel (entered p (contents p.buffer) a s) c.1 (omega arith))
        ])
]

step_body-Ends : (p : Progress) → IsValid p.buffer → Ends (step_body p)
unfolding step_body
step_body-Ends p v =
    matched (stoi (get_header p.context.request (codes "Content-Length"))) (stoi-ThrowOnly _)
  where
    matched :
        (r : Result ℕ)
        → ThrowOnly r
        → Ends (
            r >>= λ content_length.
            if content_length == readable_bytes p.buffer % 2 ^ 32
            then body_loop (suc (readable_bytes p.buffer)) p
            else ok (fail p))
    matched (err e) h = inr h
    matched (ok n) h =
        let ends =
          body_loop-Ends (suc (readable_bytes p.buffer)) p v (omega (arith, length-contents v)) in
        elim (Bool-cases (n == readable_bytes p.buffer % 2 ^ 32)) [
          | inl e ↦ rw e ends
          | inr e ↦ rw e refl
        ]

Ends-Steps : (n : ℕ) (r : Result Progress) → Ends r → Steps n r
Ends-Steps n (ok p) h = inl h
Ends-Steps n (err e) h = h

-- Each round stops or consumes readable bytes.
pub step-Steps :
    (p : Progress) (now : ℕ)
    → IsValid p.buffer
    → p.context.state ≢ all_ok
    → Steps (length (contents p.buffer)) (step p.context.state p now)
unfolding step
step-Steps p now v ne = go p.context.state refl
  where
    go :
        (s : HttpRequestState)
        → p.context.state ≡ s
        → Steps (length (contents p.buffer)) (step s p now)
    go expect_request_line e = step_request_line-Steps p v now
    go expect_headers e = step_headers-Steps p v ne
    go expect_body e = Ends-Steps _ _ (step_body-Ends p v)
    go all_ok e = absurd (ne e)

-- Where the loop stands, with fuel enough to end.
abbrev Fuelled : ℕ → Progress → Type 0
Fuelled fuel p =
    ((p.has_more ≡ false) × (0 < fuel))
    ⊎ (IsValid p.buffer × (length (contents p.buffer) + 2 ≤ fuel) × (p.context.state ≢ all_ok))

next-Ends :
    (fuel now n : ℕ) (r : Result Progress)
    → Steps n r
    → n + 2 ≤ suc fuel
    → ((q : Progress) → Fuelled fuel q → Ends (parse_loop fuel now q))
    → Ends (r >>= parse_loop fuel now)
next-Ends fuel now n (err e) h k ih = h
next-Ends fuel now n (ok q) (inl h) k ih = ih q (inl (h, omega arith))
next-Ends fuel now n (ok q) (inr (v, l, ne)) k ih = ih q (inr (v, omega arith, ne))

parse_loop-Ends : (fuel now : ℕ) (p : Progress) → Fuelled fuel p → Ends (parse_loop fuel now p)
unfolding parse_loop
parse_loop-Ends zero now p (inl h) = absurd (omega arith)
parse_loop-Ends zero now p (inr h) = absurd (omega arith)
parse_loop-Ends (suc fuel) now p (inl (h, _)) = rw (h, parse_loop) h
parse_loop-Ends (suc fuel) now p (inr (v, h, ne)) = elim (Bool-cases p.has_more) [
  | inr e ↦ rw (e, parse_loop) e
  | inl e ↦
      rw (e, parse_loop)
        (next-Ends fuel now _ (step p.context.state p now) (step-Steps p now v ne) h
          (parse_loop-Ends fuel now))
]

-- `parseRequest` on a valid buffer, with a request that is not complete, ends within the fuel, and
-- does not read outside of the buffer: it returns, or ends in a failed assertion or an exception.
pub parse_request-Ends :
    (c : HttpContext) (b : HyBuffer) (now : ℕ)
    → IsValid b
    → c.state ≢ all_ok
    → Ends (parse_request c b now)
unfolding parse_request
parse_request-Ends c b now v ne =
    parse_loop-Ends (3 + readable_bytes b) now _ (inr (v, omega (arith, length-contents v), ne))
