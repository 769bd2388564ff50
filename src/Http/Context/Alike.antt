-- ===== src/Http/Context/Alike.antt =====
-- HttpContext: a request line and a header line are read alike from buffers with the same readable bytes.
use hydrogen_web.Common.{
  ℕ, ◌+◌, ◌≤◌, ◌≡◌, refl, sym, ap, subst, ◌∙◌, inl, inr, Bool, true, false, take, drop, arith,
  length, Option-cases,
}
use hydrogen_web.Common.Bytes.{Bytes, index_of}
use hydrogen_web.Common.Fault.{Fault, Result, ok, err, ◌>>=◌}
use hydrogen_web.HyBuffer.{
  HyBuffer, readable_bytes, clear_until, crlf_index, get_crlf, readable, get_and, get_assignment,
}
use hydrogen_web.HyBuffer.Window.{IsValid, contents, length-contents}
use hydrogen_web.HyBuffer.Reading.{readable_lem}
use hydrogen_web.HyBuffer.Searching.{get_crlf_lem, crlf_index-found}
use hydrogen_web.Http.Request.{HttpRequest, Method, get, post, invalid}
use hydrogen_web.Http.Context.{
  Progress, stop, consume, parse_request_line, after_request_line, step_request_line,
  end_of_headers, header_line, step_headers,
}
use hydrogen_web.Http.Context.Line.{clear_until_lem}

-- Two runs that fail alike, or end alike with the same bytes left.
pub data Agree : Result Progress → Result Progress → Type 0 where
  both_fail : (e : Fault) → Agree (err e) (err e)
  both :
      (p : Progress) (b : HyBuffer)
      → contents b ≡ contents p.buffer
      → (p.has_more ≡ true → IsValid p.buffer × IsValid b)
      → Agree (ok p) (ok (record p { buffer = b }))

module _ (p : Progress) (b : HyBuffer) where
  end_of_headers_lem :
      (end_of_headers (record p { buffer = b }) ≡ record (end_of_headers p) { buffer = b })
      × ((end_of_headers p).buffer ≡ p.buffer)
  unfolding end_of_headers
  end_of_headers_lem = go p.context.request.method refl
    where
      go :
          (m : Method)
          → p.context.request.method ≡ m
          → (end_of_headers (record p { buffer = b }) ≡ record (end_of_headers p) { buffer = b })
            × ((end_of_headers p).buffer ≡ p.buffer)
      go get e = rw (e, end_of_headers) (refl, refl)
      go post e = rw (e, end_of_headers) (refl, refl)
      go invalid e = rw (e, end_of_headers) (refl, refl)

  -- The state behind a header line does not depend on the buffer.
  pub header_line_lem :
      (content : Bytes) (i : ℕ)
      → (header_line (record p { buffer = b }) content i
          ≡ record (header_line p content i) { buffer = b })
        × ((header_line p content i).buffer ≡ p.buffer)
  unfolding header_line
  header_line_lem content i = elim (Option-cases (index_of b':' (take i content))) [
    | inl e ↦ rw (e, header_line) end_of_headers_lem
    | inr (c, e) ↦ rw (e, header_line) (refl, refl)
  ]

module _ (p : Progress) (b : HyBuffer) (v : IsValid p.buffer) (w : IsValid b)
    (same : contents b ≡ contents p.buffer) where
  pub searched :
      (get_crlf b ≡ ok (crlf_index (contents p.buffer)))
      × (get_and b ≡ ok (index_of b'&' (contents p.buffer)))
      × (get_assignment b ≡ ok (index_of b'=' (contents p.buffer)))
      × (readable b ≡ ok (contents p.buffer))
  searched =
      let (c, a, e) = get_crlf_lem w in
      (
        c ∙ ap (λ t. ok (crlf_index t)) same,
        a ∙ ap (λ t. ok (index_of b'&' t)) same,
        e ∙ ap (λ t. ok (index_of b'=' t)) same,
        readable_lem w ∙ ap (λ t. ok t) same,
      )

  pub same_size : readable_bytes b ≡ readable_bytes p.buffer
  same_size = omega (arith, length-contents v, length-contents w, ap length same)

  pub cleared :
      (n : ℕ)
      → n ≤ length (contents p.buffer)
      → (contents (clear_until b n) ≡ contents (clear_until p.buffer n))
        × IsValid (clear_until p.buffer n)
        × IsValid (clear_until b n)
  cleared n h =
      let (c, k, _) = clear_until_lem n v h in
      let (d, l, _) = clear_until_lem n w (omega (arith, ap length same)) in
      (d ∙ ap (drop n) same ∙ sym c, k, l)

  parsed_Agree :
      (now i : ℕ) (m : Result (Bool × HttpRequest))
      → i + 2 ≤ length (contents p.buffer)
      → Agree
          (m >>= λ x. ok (after_request_line p now i x))
          (m >>= λ x. ok (after_request_line (record p { buffer = b }) now i x))
  unfolding after_request_line
  parsed_Agree now i (err e) h = both_fail e
  parsed_Agree now i (ok (true, r)) h =
      let (c, k, l) = cleared (i + 2) h in both _ (clear_until b (i + 2)) c (λ _. (k, l))
  parsed_Agree now i (ok (false, r)) h = both _ b same (λ e. cc)

  pub request_line_Agree :
      (now : ℕ) → Agree (step_request_line p now) (step_request_line (record p { buffer = b }) now)
  unfolding step_request_line
  request_line_Agree now =
      let (c, _, _, r) = searched in
      elim (Option-cases (crlf_index (contents p.buffer))) [
        | inl e ↦ rw ((get_crlf_lem v).0, c, e) (both (stop p) b same (λ e. cc))
        | inr (i, e) ↦
            rw ((get_crlf_lem v).0, c, e, readable_lem v, r)
              (parsed_Agree now i
                (parse_request_line p.context.request (take i (contents p.buffer)))
                (let f = (crlf_index-found (contents p.buffer) i e).0 in omega arith))
      ]

  pub headers_Agree : Agree (step_headers p) (step_headers (record p { buffer = b }))
  unfolding step_headers
  headers_Agree =
      let (c, _, _, r) = searched in
      elim (Option-cases (crlf_index (contents p.buffer))) [
        | inl e ↦ rw ((get_crlf_lem v).0, c, e) (both (stop p) b same (λ e. cc))
        | inr (i, e) ↦
            let (same_line, kept) = header_line_lem p b (contents p.buffer) i in
            let (d, k, l) =
              cleared (i + 2)
                (let f = (crlf_index-found (contents p.buffer) i e).0 in omega arith) in
            rw ((get_crlf_lem v).0, c, e, readable_lem v, r, same_line)
              (both (consume (header_line p (contents p.buffer) i) (i + 2)) (clear_until b (i + 2))
                (d ∙ ap (λ x. contents (clear_until x (i + 2))) (sym kept))
                (λ _. (subst (λ x. IsValid (clear_until x (i + 2))) (sym kept) k, l)))
      ]
