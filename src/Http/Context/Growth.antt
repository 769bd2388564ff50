-- ===== src/Http/Context/Growth.antt =====
-- HttpContext: a round of `parseRequest` on bytes that have more behind them.
use hydrogen_web.Common.{
  ℕ, zero, suc, ◌+◌, ◌-◌, ◌≤◌, ◌<◌, ◌≡◌, refl, sym, ap, subst, ◌∙◌, inl, inr, ◌⊎◌, Bool, true,
  false, some, [], ◌∷◌, ◌++◌, take, drop, arith, length, length-drop, length-append, length-take,
  Option-cases, Bool-cases, if◌then◌else◌, ◌==◌, ◌%◌, ◌^◌, take-append_le, drop-append_le,
}
use hydrogen_web.Common.Bytes.{Bytes, codes, index_of, index_of-lt}
use hydrogen_web.Common.Fault.{Fault, Result, ok, err, ◌>>=◌}
use hydrogen_web.HyBuffer.{HyBuffer, readable_bytes, clear_until, crlf_index, get_eol}
use hydrogen_web.HyBuffer.Window.{IsValid, contents}
use hydrogen_web.HyBuffer.Reading.{readable_lem}
use hydrogen_web.HyBuffer.Searching.{get_crlf_lem, crlf_index-found}
use hydrogen_web.Http.Request.{HttpRequest, get_header}
use hydrogen_web.Http.Context.{
  HttpRequestState, expect_request_line, expect_headers, expect_body, all_ok, Progress, fail, stop,
  consume, parse_request_line, after_request_line, step_request_line, end_of_headers, header_line,
  step_headers, stoi, entered, complete, body_entry, body_loop, step_body, step,
}
use hydrogen_web.Http.Context.Line.{clear_until_lem}
use hydrogen_web.Http.Context.Alike.{header_line_lem}
use hydrogen_web.Http.Context.Termination.{body_entry_cases}

-- A line that is found is found in front of further bytes too.
crlf_index-more : (xs ys : Bytes) (i : ℕ) → crlf_index xs ≡ some i → crlf_index (xs ++ ys) ≡ some i
unfolding crlf_index
crlf_index-more [] ys i h = cc
crlf_index-more (x ∷ []) ys i h = cc
crlf_index-more (x ∷ y ∷ xs) ys zero h = ground arith
crlf_index-more (x ∷ y ∷ xs) ys (suc i) h = ground (arith, crlf_index-more (y ∷ xs) ys i)

-- The request has failed in its body, or is complete.
abbrev pub IsSettled : Progress → Type 0
IsSettled p = (p.has_more ≡ false) × ((p.context.state ≡ expect_body) ⊎ (p.context.state ≡ all_ok))

abbrev Settles : Result Progress → Type 0
Settles (err e) = Unit {0}
Settles (ok p) = IsSettled p

-- A round on some bytes, and the same round with `ys` behind them: it does the same and leaves `ys`, or it
-- waits for the end of a line and leaves everything, or both reject the request line, or it has settled
-- the request, or failed.
pub data Grows (ys : Bytes) (p : Progress) : Result Progress → Result Progress → Type 0 where
  same_round :
      (q : Progress) (c : HyBuffer)
      → q.has_more ≡ true
      → (p.correct ≡ true → q.correct ≡ true)
      → IsValid q.buffer
      → IsValid c
      → contents c ≡ contents q.buffer ++ ys
      → Grows ys p (ok q) (ok (record q { buffer = c }))
  waits : (r : Result Progress) → Grows ys p (ok (stop p)) r
  rejects :
      (q r : Progress)
      → q.has_more ≡ false
      → q.correct ≡ false
      → r.has_more ≡ false
      → r.correct ≡ false
      → Grows ys p (ok q) (ok r)
  settles : (q : Progress) (r : Result Progress) → IsSettled q → Grows ys p (ok q) r
  fails : (e : Fault) (r : Result Progress) → Grows ys p (err e) r

Settles-Grows : (ys : Bytes) (p : Progress) (r s : Result Progress) → Settles r → Grows ys p r s
Settles-Grows ys p (err e) s h = fails e s
Settles-Grows ys p (ok q) s h = settles q s h

-- The header line is the same, up to its CR.
header_line-more :
    (p : Progress) (xs ys : Bytes) (i : ℕ)
    → i + 2 ≤ length xs
    → header_line p (xs ++ ys) i ≡ header_line p xs i
unfolding header_line
header_line-more p xs ys i h =
    let line : take i (xs ++ ys) ≡ take i xs = take-append_le i xs ys (omega arith) in
    elim (Option-cases (index_of b':' (take i xs))) [
      | inl e ↦ rw (line, e, header_line) refl
      | inr (c, e) ↦
          let less : c < i =
            (let k = index_of-lt b':' (take i xs) c e in omega (arith, length-take i xs)) in
          let name : take c (xs ++ ys) ≡ take c xs = take-append_le c xs ys (omega arith) in
          let value : take (i - c) (drop (suc c) (xs ++ ys)) ≡ take (i - c) (drop (suc c) xs) =
            ap (take (i - c)) (drop-append_le (suc c) xs ys (omega arith))
            ∙ take-append_le (i - c) (drop (suc c) xs) ys (omega (arith, length-drop (suc c) xs)) in
          rw (line, e, header_line, name, value) refl
    ]

header_line-settles :
    (p : Progress) (content : Bytes) (i : ℕ)
    → p.has_more ≡ true
    → (header_line p content i).has_more ≡ false
    → (header_line p content i).context.state ≡ all_ok
unfolding header_line end_of_headers
header_line-settles p content i h k = ground arith

header_line-correct :
    (p : Progress) (content : Bytes) (i : ℕ) → (header_line p content i).correct ≡ p.correct
unfolding header_line end_of_headers
header_line-correct p content i = ground arith

module _ (p : Progress) (b : HyBuffer) (ys : Bytes) (v : IsValid p.buffer) (w : IsValid b)
    (h : p.has_more ≡ true) (more : contents b ≡ contents p.buffer ++ ys) where
  abbrev xs : Bytes
  xs = contents p.buffer

  abbrev grown : Progress
  grown = record p { buffer = b }

  behind :
      (n : ℕ)
      → n ≤ length xs
      → (contents (clear_until b n) ≡ contents (clear_until p.buffer n) ++ ys)
        × IsValid (clear_until p.buffer n)
        × IsValid (clear_until b n)
  behind n le =
      let (c, k, _) = clear_until_lem n v le in
      let (d, l, _) = clear_until_lem n w (omega (arith, ap length more, length-append xs ys)) in
      (d ∙ ap (drop n) more ∙ drop-append_le n xs ys le ∙ ap (λ t. t ++ ys) (sym c), k, l)

  parsed_Grows :
      (now i : ℕ) (m : Result (Bool × HttpRequest))
      → i + 2 ≤ length xs
      → Grows ys p
          (m >>= λ x. ok (after_request_line p now i x))
          (m >>= λ x. ok (after_request_line grown now i x))
  unfolding after_request_line
  parsed_Grows now i (err e) le = fails e _
  parsed_Grows now i (ok (true, r)) le =
      let (c, k, l) = behind (i + 2) le in same_round _ (clear_until b (i + 2)) h (λ e. refl) k l c
  parsed_Grows now i (ok (false, r)) le = rejects _ _ refl refl refl refl

  request_line_Grows :
      (now : ℕ) → Grows ys p (step_request_line p now) (step_request_line grown now)
  unfolding step_request_line
  request_line_Grows now = elim (Option-cases (crlf_index xs)) [
    | inl e ↦ rw ((get_crlf_lem v).0, e) (waits _)
    | inr (i, e) ↦
        let size = (crlf_index-found xs i e).0 in
        let found =
          (get_crlf_lem w).0
          ∙ ap (λ t. ok (crlf_index t)) more
          ∙ ap (λ o. ok o) (crlf_index-more xs ys i e) in
        let line : take i (contents b) ≡ take i xs =
          ap (take i) more ∙ take-append_le i xs ys (omega arith) in
        rw ((get_crlf_lem v).0, e, readable_lem v, found, readable_lem w, line)
          (parsed_Grows now i (parse_request_line p.context.request (take i xs)) (omega arith))
  ]

  headers_Grows : Grows ys p (step_headers p) (step_headers grown)
  unfolding step_headers
  headers_Grows = elim (Option-cases (crlf_index xs)) [
    | inl e ↦ rw ((get_crlf_lem v).0, e) (waits _)
    | inr (i, e) ↦
        let size = (crlf_index-found xs i e).0 in
        let found =
          (get_crlf_lem w).0
          ∙ ap (λ t. ok (crlf_index t)) more
          ∙ ap (λ o. ok o) (crlf_index-more xs ys i e) in
        let (same_line, kept) = header_line_lem p b xs i in
        let line : header_line grown (contents b) i ≡ record (header_line p xs i) { buffer = b } =
          ap (λ t. header_line grown t i) more
          ∙ header_line-more grown xs ys i (omega arith)
          ∙ same_line in
        let (c, k, l) = behind (i + 2) (omega arith) in
        rw ((get_crlf_lem v).0, e, readable_lem v, found, readable_lem w, line)
          (elim (Bool-cases (header_line p xs i).has_more) [
            | inl t ↦
                same_round (consume (header_line p xs i) (i + 2)) (clear_until b (i + 2)) t
                  (λ e. header_line-correct p xs i ∙ e)
                  (subst (λ x. IsValid (clear_until x (i + 2))) (sym kept) k) l
                  (c ∙ ap (λ x. contents (clear_until x (i + 2)) ++ ys) (sym kept))
            | inr t ↦ settles _ _ (t, inr (header_line-settles p xs i h t))
          ])
  ]

completed-Settles :
    (p : Progress) (content : Bytes) (a e : ℕ)
    → Settles (body_entry p content a e >>= λ q. ok (complete q))
completed-Settles p content a e = elim (body_entry_cases p content a e) [
  | inl (_, h) ↦ rw h tt
  | inr (_, h) ↦ rw h (refl, inr refl)
]

-- A body is settled whatever there is of it.
body_loop-Settles :
    (fuel : ℕ) (p : Progress)
    → p.context.state ≡ expect_body
    → IsValid p.buffer
    → Settles (body_loop fuel p)
unfolding body_loop
body_loop-Settles zero p s₀ v = tt
body_loop-Settles (suc fuel) p s₀ v = elim (Option-cases (index_of b'=' (contents p.buffer))) [
  | inl e ↦ rw ((get_crlf_lem v).2, e) (refl, inl s₀)
  | inr (a, e) ↦
      rw ((get_crlf_lem v).2, e, readable_lem v, (get_crlf_lem v).1)
        (elim (Option-cases (index_of b'&' (contents p.buffer))) [
          | inl n ↦ rw n (completed-Settles p (contents p.buffer) a (get_eol p.buffer))
          | inr (s, n) ↦ rw n (elim (body_entry_cases p (contents p.buffer) a s) [
            | inl (_, h) ↦ rw h tt
            | inr (_, h) ↦ rw h (
                let c =
                  clear_until_lem (s + 1) v
                    (omega (arith, index_of-lt b'&' (contents p.buffer) s n)) in
                body_loop-Settles fuel (entered p (contents p.buffer) a s) s₀ c.1)
          ])
        ])
]

step_body-Settles :
    (p : Progress) → p.context.state ≡ expect_body → IsValid p.buffer → Settles (step_body p)
unfolding step_body
step_body-Settles p s₀ v = go (stoi (get_header p.context.request (codes "Content-Length")))
  where
    go :
        (r : Result ℕ)
        → Settles (
            r >>= λ n.
            if n == readable_bytes p.buffer % 2 ^ 32
            then body_loop (suc (readable_bytes p.buffer)) p
            else ok (fail p))
    go (err e) = tt
    go (ok n) = elim (Bool-cases (n == readable_bytes p.buffer % 2 ^ 32)) [
      | inl e ↦ rw e (body_loop-Settles (suc (readable_bytes p.buffer)) p s₀ v)
      | inr e ↦ rw e (refl, inl s₀)
    ]

pub step-Grows :
    (s : HttpRequestState) (p : Progress) (now : ℕ) (b : HyBuffer) (ys : Bytes)
    → p.context.state ≡ s
    → IsValid p.buffer
    → IsValid b
    → p.has_more ≡ true
    → contents b ≡ contents p.buffer ++ ys
    → Grows ys p (step s p now) (step s (record p { buffer = b }) now)
unfolding step
step-Grows expect_request_line p now b ys s₀ v w h more = request_line_Grows p b ys v w h more now
step-Grows expect_headers p now b ys s₀ v w h more = headers_Grows p b ys v w h more
step-Grows expect_body p now b ys s₀ v w h more =
    Settles-Grows ys p (step_body p) (step_body (record p { buffer = b }))
      (step_body-Settles p s₀ v)
step-Grows all_ok p now b ys s₀ v w h more = same_round p b h (λ e. e) v w more
