-- ===== src/Http/Context/Headers.antt =====
-- HttpContext: header lines and the empty line, parsed after they are printed.
use hydrogen_web.Common.{
  ℕ, zero, suc, ◌+◌, ◌-◌, ◌≤◌, ◌≡◌, refl, sym, ap, ◌∙◌, true, false, some, List, [], ◌∷◌, ◌++◌,
  append_assoc, arith, length, take, drop, length-append, take-append_self, drop-suc-append,
}
use hydrogen_web.Common.Bytes.{Bytes, Free, index_of, index_of-append}
use hydrogen_web.Common.Dict.{Dict, insert}
use hydrogen_web.Common.Fault.{ok}
use hydrogen_web.HyBuffer.{clear_until}
use hydrogen_web.HyBuffer.Window.{IsValid, contents}
use hydrogen_web.HyBuffer.Reading.{readable_lem}
use hydrogen_web.HyBuffer.Searching.{crlf}
use hydrogen_web.Http.Request.{get, add_header}
use hydrogen_web.Http.Request.Headers.{IsTrimmed, trim_lem}
use hydrogen_web.Http.Context.{
  expect_headers, all_ok, Progress, consume, complete, header_line, end_of_headers, step_headers,
  step, parse_loop,
}
use hydrogen_web.Http.Context.Line.{line_lem}

-- A header line without its CRLF.
abbrev pub header_text : Bytes → Bytes → Bytes
header_text name v = name ++ (b':' ∷ 0x20 ∷ v)

-- A header that survives a line: no colon in its name, no CR, no white space round its value.
pub record IsHeader (name v : Bytes) : Type 0 where
  pub no_colon : Free b':' name
  pub name_no_cr : Free 0x0d name
  pub value_no_cr : Free 0x0d v
  pub trimmed : IsTrimmed v

pub Free-append : (c : ℕ) (xs ys : Bytes) → Free c xs → Free c ys → Free c (xs ++ ys)
Free-append c [] ys h k = k
Free-append c (x ∷ xs) ys h k = (h.0, Free-append c xs ys h.1 k)

-- The request after a header.
abbrev pub with_header : Progress → Bytes → Bytes → Progress
with_header p name v = record p {
  context = record p.context {
    request = record p.context.request { headers = insert name v p.context.request.headers };
  };
}

module _ (p : Progress) (name v rest : Bytes) (h : IsHeader name v) where
  abbrev text : Bytes
  text = header_text name v ++ (crlf ++ rest)

  -- `text` as the name, the colon and the rest.
  text-split : text ≡ name ++ (b':' ∷ (0x20 ∷ v) ++ (crlf ++ rest))
  text-split = append_assoc name (b':' ∷ 0x20 ∷ v) (crlf ++ rest)

  colon_found : index_of b':' (take (length (header_text name v)) text) ≡ some (length name)
  colon_found =
      ap (index_of b':') (take-append_self (header_text name v) (crlf ++ rest))
      ∙ index_of-append b':' name (0x20 ∷ v) h.no_colon

  name_taken : take (length name) text ≡ name
  name_taken = ap (take (length name)) text-split ∙ take-append_self name _

  value_taken :
      take (length (header_text name v) - length name) (drop (suc (length name)) text)
      ≡ 0x20 ∷ (v ++ 0x0d ∷ [])
  value_taken =
      let e : length (header_text name v) - length name ≡ length (0x20 ∷ (v ++ 0x0d ∷ [])) =
        omega (arith, length-append name (b':' ∷ 0x20 ∷ v), length-append v (0x0d ∷ [])) in
      ap (λ t. take (length (header_text name v) - length name) (drop (suc (length name)) t))
        text-split
      ∙ (ap (take (length (header_text name v) - length name)) (
            drop-suc-append name b':' ((0x20 ∷ v) ++ (crlf ++ rest))
            ∙ ap (λ t. 0x20 ∷ t) (sym (append_assoc v (0x0d ∷ []) (0x0a ∷ rest))))
          ∙ (ap (λ k. take k (0x20 ∷ ((v ++ 0x0d ∷ []) ++ 0x0a ∷ rest))) e
              ∙ take-append_self (0x20 ∷ (v ++ 0x0d ∷ [])) (0x0a ∷ rest)))

  header_line_lem : header_line p text (length (header_text name v)) ≡ with_header p name v
  unfolding header_line add_header
  header_line_lem =
      rw (colon_found, header_line)
        (ap
          (λ d. record p {
            context = record p.context { request = record p.context.request { headers = d } };
          })
          inserted)
    where
      inserted :
          (add_header p.context.request (take (length name) text) (
            take
              (length (header_text name v) - length name)
              (drop (suc (length name)) text))).headers
          ≡ insert name v p.context.request.headers
      inserted = rw (name_taken, value_taken, trim_lem v h.trimmed)

  -- A header line is stored and consumed.
  step_headers_lem :
      IsValid p.buffer
      → contents p.buffer ≡ text
      → (step_headers p ≡ ok (consume (with_header p name v) (length (header_text name v) + 2)))
        × (contents (clear_until p.buffer (length (header_text name v) + 2)) ≡ rest)
        × IsValid (clear_until p.buffer (length (header_text name v) + 2))
  unfolding step_headers
  step_headers_lem valid e =
      let l = line_lem (header_text name v) rest valid no_cr e in
      (
        rw (l.0, readable_lem valid, e)
            (ap ok (ap (λ q. consume q (length (header_text name v) + 2)) header_line_lem)),
        l.1,
        l.2,
      )
    where
      no_cr : Free 0x0d (header_text name v)
      no_cr =
          Free-append 0x0d name (b':' ∷ 0x20 ∷ v) h.name_no_cr (λ e. cc, (λ e. cc, h.value_no_cr))

abbrev pub Headers : Type 0
Headers = List (Bytes × Bytes)

abbrev pub IsHeaders : Headers → Type 0
IsHeaders [] = Unit {0}
IsHeaders ((n, v) ∷ hs) = IsHeader n v × IsHeaders hs

-- The header lines, the empty line, and what follows.
abbrev pub print_headers : Headers → Bytes → Bytes
print_headers [] rest = crlf ++ rest
print_headers ((n, v) ∷ hs) rest = header_text n v ++ (crlf ++ print_headers hs rest)

abbrev pub insert_all : Headers → Dict → Dict
insert_all [] d = d
insert_all ((n, v) ∷ hs) d = insert_all hs (insert n v d)

-- The loop has read the headers `hs` from `p` and stopped at `q` in front of `rest`.
pub record Parsed (p : Progress) (hs : Headers) (rest : Bytes) (q : Progress) : Type 0 where
  pub correct : q.correct ≡ p.correct
  pub stopped : q.has_more ≡ false
  pub complete : q.context.state ≡ all_ok
  pub request :
      q.context.request
      ≡ record p.context.request { headers = insert_all hs p.context.request.headers }
  pub remaining : contents q.buffer ≡ rest
  pub valid : IsValid q.buffer

end_of_headers_get : (p : Progress) → p.context.request.method ≡ get → end_of_headers p ≡ complete p
unfolding end_of_headers
end_of_headers_get p m = ground arith

-- One round of the loop.
pub parse_loop_round :
    (fuel now : ℕ) (p : Progress) {q : Progress}
    → p.has_more ≡ true
    → step p.context.state p now ≡ ok q
    → parse_loop (suc fuel) now p ≡ parse_loop fuel now q
unfolding parse_loop
parse_loop_round fuel now p m e = ground arith

pub parse_loop_stop :
    (fuel now : ℕ) (p : Progress) → p.has_more ≡ false → parse_loop (suc fuel) now p ≡ ok p
unfolding parse_loop
parse_loop_stop fuel now p m = ground arith

pub step-expect_headers :
    (now : ℕ) (p : Progress)
    → p.context.state ≡ expect_headers
    → step p.context.state p now ≡ step_headers p
unfolding step
step-expect_headers now p e = ap (λ s. step s p now) e

empty_line_lem :
    (p : Progress) (rest : Bytes)
    → IsValid p.buffer
    → p.context.request.method ≡ get
    → contents p.buffer ≡ crlf ++ rest
    → (step_headers p ≡ ok (consume (complete p) 2))
      × (contents (clear_until p.buffer 2) ≡ rest)
      × IsValid (clear_until p.buffer 2)
unfolding step_headers header_line index_of
empty_line_lem p rest v m e =
    let l = line_lem [] rest v tt e in
    (rw (l.0, readable_lem v) (ap (λ q. ok (consume q 2)) (end_of_headers_get p m)), l.1, l.2)

pub headers_loop_lem :
    (hs : Headers) (rest : Bytes) (fuel now : ℕ) (p : Progress)
    → IsHeaders hs
    → IsValid p.buffer
    → p.has_more ≡ true
    → p.context.state ≡ expect_headers
    → p.context.request.method ≡ get
    → contents p.buffer ≡ print_headers hs rest
    → length hs + 2 ≤ fuel
    → (q : Progress) × (parse_loop fuel now p ≡ ok q) × Parsed p hs rest q
headers_loop_lem [] rest zero now p h v m s g e f = absurd (omega arith)
headers_loop_lem [] rest (suc zero) now p h v m s g e f = absurd (omega arith)
headers_loop_lem [] rest (suc (suc fuel)) now p h v m s g e f =
    let l = empty_line_lem p rest v g e in
    (
      consume (complete p) 2,
      parse_loop_round (suc fuel) now p m (step-expect_headers now p s ∙ l.0)
          ∙ parse_loop_stop fuel now (consume (complete p) 2) refl,
      record {
        correct = refl;
        stopped = refl;
        complete = refl;
        request = refl;
        remaining = l.1;
        valid = l.2;
      },
    )
headers_loop_lem ((n, w) ∷ hs) rest zero now p h v m s g e f = absurd (omega arith)
headers_loop_lem ((n, w) ∷ hs) rest (suc fuel) now p h v m s g e f =
    let l = step_headers_lem p n w (print_headers hs rest) h.0 v e in
    let (q, run, d) =
      headers_loop_lem hs rest fuel now (consume (with_header p n w) (length (header_text n w) + 2))
        h.1 l.2 m s g l.1 (omega arith) in
    (
      q,
      parse_loop_round fuel now p m (step-expect_headers now p s ∙ l.0) ∙ run,
      record {
        correct = d.correct;
        stopped = d.stopped;
        complete = d.complete;
        request = d.request;
        remaining = d.remaining;
        valid = d.valid;
      },
    )
