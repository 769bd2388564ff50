-- ===== src/Http/Context/Body.antt =====
-- HttpContext: the entries of a POST body, and the buffer that a complete body leaves.
use hydrogen_web.Common.{
  ℕ, zero, suc, ◌+◌, ◌-◌, ◌≤◌, ◌<◌, ◌≡◌, refl, sym, ap, ◌∙◌, false, Option, none, some, [], ◌∷◌,
  ◌++◌, append_assoc, append-nil, arith, length, take, drop, length-append, length-take_le,
  take-append_self, drop-suc-append, take-length_le,
}
use hydrogen_web.Common.Bytes.{Bytes, Free, index_of, index_of-append, index_of-Free}
use hydrogen_web.Common.Fault.{ok}
use hydrogen_web.HyBuffer.{
  HyBuffer, writable_bytes, clear, clear_until, get_eol, read_fd, readable, get_assignment, get_and,
}
use hydrogen_web.HyBuffer.Window.{IsValid, contents, length-contents, copy_to_lem}
use hydrogen_web.HyBuffer.Reading.{readable_lem}
use hydrogen_web.HyBuffer.Searching.{get_crlf_lem}
use hydrogen_web.Http.Request.{HttpRequest, add_body}
use hydrogen_web.Http.Context.{all_ok, Progress, complete, entered, body_entry, body_loop}
use hydrogen_web.Http.Context.Line.{clear_until_lem}
use hydrogen_web.Http.Context.Headers.{Headers, insert_all, Free-append}

abbrev pub entry_text : Bytes → Bytes → Bytes
entry_text name v = name ++ b'=' ∷ v

-- A form as a browser sends it: `name=value` joined by `&`.
abbrev pub print_body : Bytes → Bytes → Headers → Bytes
print_body n v [] = entry_text n v
print_body n v ((m, w) ∷ es) = entry_text n v ++ b'&' ∷ print_body m w es

abbrev pub IsEntry : Bytes → Bytes → Type 0
IsEntry n v = Free b'=' n × Free b'&' n × Free b'&' v

abbrev pub IsEntries : Headers → Type 0
IsEntries [] = Unit {0}
IsEntries ((n, v) ∷ es) = IsEntry n v × IsEntries es

-- The request after the entries `es`.
abbrev pub with_entries : HttpRequest → Headers → HttpRequest
with_entries r es = record r { headers = insert_all es r.headers }

module _ (p : Progress) (n v rest : Bytes) where
  abbrev text : Bytes
  text = entry_text n v ++ rest

  text-split : text ≡ n ++ ((b'=' ∷ v) ++ rest)
  text-split = append_assoc n (b'=' ∷ v) rest

  assignment_found : Free b'=' n → index_of b'=' text ≡ some (length n)
  assignment_found f = ap (index_of b'=') text-split ∙ index_of-append b'=' n (v ++ rest) f

  -- The entry that ends behind its value is stored.
  entered_lem :
      (entered p text (length n) (length (entry_text n v))).context.request
      ≡ with_entries p.context.request ((n, v) ∷ [])
  unfolding add_body
  entered_lem = rw (name_taken, value_taken) refl
    where
      name_taken : take (length n) text ≡ n
      name_taken = ap (take (length n)) text-split ∙ take-append_self n _

      size : length (entry_text n v) - suc (length n) ≡ length v
      size = omega (arith, length-append n (b'=' ∷ v))

      value_taken : take (length (entry_text n v) - suc (length n)) (drop (suc (length n)) text) ≡ v
      value_taken =
          ap (λ t. take (length (entry_text n v) - suc (length n)) (drop (suc (length n)) t))
            text-split
          ∙ (ap (take (length (entry_text n v) - suc (length n)))
                (drop-suc-append n b'=' (v ++ rest))
              ∙ (ap (λ k. take k (v ++ rest)) size ∙ take-append_self v rest))

  body_entry_lem :
      body_entry p text (length n) (length (entry_text n v))
      ≡ ok (entered p text (length n) (length (entry_text n v)))
  unfolding body_entry
  body_entry_lem = ground (arith, length-append n (b'=' ∷ v))

entry_text-Free : (n v : Bytes) → IsEntry n v → Free b'&' (entry_text n v)
entry_text-Free n v h = Free-append b'&' n (b'=' ∷ v) h.1 (λ e. cc, h.2)

-- What the loop leaves when the body is complete: the reader index one past the writer index.
pub record Finished (p : Progress) (es : Headers) (q : Progress) : Type 0 where
  pub correct : q.correct ≡ p.correct
  pub stopped : q.has_more ≡ false
  pub complete : q.context.state ≡ all_ok
  pub request : q.context.request ≡ with_entries p.context.request es
  pub past_end : q.buffer.reader_index ≡ suc q.buffer.writer_index
  pub same : q.buffer.buffer ≡ p.buffer.buffer
  pub writer : q.buffer.writer_index ≡ p.buffer.writer_index

-- The searches in front of an entry.
record Found (p : Progress) (n v rest : Bytes) (separator : Option ℕ) : Type 0 where
  assignment : get_assignment p.buffer ≡ ok (some (length n))
  content : readable p.buffer ≡ ok (text p n v rest)
  ampersand : get_and p.buffer ≡ ok separator

found :
    (p : Progress) (n v rest : Bytes) {separator : Option ℕ}
    → IsEntry n v
    → IsValid p.buffer
    → contents p.buffer ≡ text p n v rest
    → index_of b'&' (text p n v rest) ≡ separator
    → Found p n v rest separator
found p n v rest h valid e s = record {
  assignment =
      (get_crlf_lem valid).2
      ∙ ap (λ t. ok (index_of b'=' t)) e
      ∙ ap ok (assignment_found p n v rest h.0);
  content = readable_lem valid ∙ ap ok e;
  ampersand = (get_crlf_lem valid).1 ∙ ap (λ t. ok (index_of b'&' t)) e ∙ ap ok s;
}

last_entry :
    (fuel : ℕ) (p : Progress) (n v : Bytes)
    → IsValid p.buffer
    → contents p.buffer ≡ text p n v []
    → Found p n v [] none
    → body_loop (suc fuel) p
      ≡ ok (complete (entered p (text p n v []) (length n) (length (entry_text n v))))
unfolding body_loop
last_entry fuel p n v valid e f =
    let eol : get_eol p.buffer ≡ length (entry_text n v) =
      omega (arith, length-contents valid, ap length e, length-append (entry_text n v) []) in
    rw (f.assignment, f.content, f.ampersand, eol, body_entry_lem p n v []) refl

next_entry :
    (fuel : ℕ) (p : Progress) (n v rest : Bytes)
    → Found p n v rest (some (length (entry_text n v)))
    → body_loop (suc fuel) p
      ≡ body_loop fuel (entered p (text p n v rest) (length n) (length (entry_text n v)))
unfolding body_loop
next_entry fuel p n v rest f =
    rw (f.assignment, f.content, f.ampersand, body_entry_lem p n v rest) refl

last-Finished :
    (p : Progress) (n v : Bytes)
    → IsValid p.buffer
    → contents p.buffer ≡ text p n v []
    → Finished p
        ((n, v) ∷ [])
        (complete (entered p (text p n v []) (length n) (length (entry_text n v))))
unfolding clear_until clear
last-Finished p n v valid e = record {
  correct = refl;
  stopped = refl;
  complete = refl;
  request = entered_lem p n v [];
  past_end = omega (arith, length-contents valid, ap length e, length-append (entry_text n v) []);
  same = refl;
  writer = refl;
}

drop_entry :
    (n v rest : Bytes) → drop (length (entry_text n v) + 1) (entry_text n v ++ b'&' ∷ rest) ≡ rest
drop_entry n v rest =
    let k : length (entry_text n v) + 1 ≡ suc (length (entry_text n v)) = omega arith in
    ap (λ i. drop i (entry_text n v ++ b'&' ∷ rest)) k ∙ drop-suc-append (entry_text n v) b'&' rest

later-Finished :
    (p : Progress) (n v rest : Bytes) (es : Headers) {q : Progress}
    → Finished (entered p (text p n v rest) (length n) (length (entry_text n v))) es q
    → Finished p ((n, v) ∷ es) q
unfolding clear_until clear
later-Finished p n v rest es d = record {
  correct = d.correct;
  stopped = d.stopped;
  complete = d.complete;
  request = d.request ∙ ap (λ r. with_entries r es) (entered_lem p n v rest);
  past_end = d.past_end;
  same = d.same;
  writer = d.writer;
}

-- A printed form is read entry by entry into the headers, and the body is complete.
pub body_loop_lem :
    (fuel : ℕ) (p : Progress) (n v : Bytes) (es : Headers)
    → IsEntry n v
    → IsEntries es
    → IsValid p.buffer
    → contents p.buffer ≡ print_body n v es
    → length es < fuel
    → (q : Progress) × (body_loop fuel p ≡ ok q) × Finished p ((n, v) ∷ es) q
body_loop_lem zero p n v [] h hs valid e f = absurd (omega arith)
body_loop_lem (suc fuel) p n v [] h hs valid e f =
    let e' : contents p.buffer ≡ text p n v [] = e ∙ sym (append-nil (entry_text n v)) in
    let none_found : index_of b'&' (text p n v []) ≡ none =
      ap (index_of b'&') (append-nil (entry_text n v))
      ∙ index_of-Free b'&' (entry_text n v) (entry_text-Free n v h) in
    (
      _,
      last_entry fuel p n v valid e' (found p n v [] h valid e' none_found),
      last-Finished p n v valid e',
    )
body_loop_lem zero p n v ((m, w) ∷ es) h hs valid e f = absurd (omega arith)
body_loop_lem (suc fuel) p n v ((m, w) ∷ es) h hs valid e f =
    let more = b'&' ∷ print_body m w es in
    let s = index_of-append b'&' (entry_text n v) (print_body m w es) (entry_text-Free n v h) in
    let size : length (contents p.buffer)
        ≡ length (entry_text n v) + 1 + length (print_body m w es) =
      omega (arith, ap length e, length-append (entry_text n v) more) in
    let c = clear_until_lem (length (entry_text n v) + 1) valid (omega arith) in
    let p' = entered p (text p n v more) (length n) (length (entry_text n v)) in
    let (q, run, d) =
      body_loop_lem fuel p' m w es hs.0 hs.1 c.1
        (c.0 ∙ (ap (drop (length (entry_text n v) + 1)) e ∙ drop_entry n v (print_body m w es)))
        (omega arith) in
    (
      q,
      next_entry fuel p n v more (found p n v more h valid e s) ∙ run,
      later-Finished p n v more ((m, w) ∷ es) d,
    )

-- A read of the connection behind a complete body.
read_behind :
    {p q : Progress} {es : Headers} (x : ℕ) (xs : Bytes)
    → IsValid p.buffer
    → Finished p es q
    → q.buffer.writer_index + 2 + length xs ≤ length q.buffer.buffer
    → (b : HyBuffer) × (read_fd q.buffer (some (x ∷ xs)) ≡ ok (b, some (suc (length xs))))
      × (contents b ≡ xs)
unfolding read_fd
read_behind {p} {q} x xs valid d room = (
  record b { buffer = filled; writer_index = w + suc (length xs) },
  ground (arith, take-length_le (writable_bytes b) (x ∷ xs), copy_to_lem b.buffer w (x ∷ xs)),
  ap (λ r. take (w + suc (length xs) - r) (drop r filled)) d.past_end
      ∙ (ap (take (w + suc (length xs) - suc w)) behind
          ∙ (ap (λ k. take k (xs ++ rest)) size ∙ take-append_self xs rest)),
)
  where
    b : HyBuffer
    b = q.buffer

    w : ℕ
    w = b.writer_index

    rest : Bytes
    rest = drop (w + suc (length xs)) b.buffer

    filled : Bytes
    filled = take w b.buffer ++ ((x ∷ xs) ++ rest)

    size : w + suc (length xs) - suc w ≡ length xs
    size = omega arith

    kept : length (take w b.buffer) ≡ w
    kept = length-take_le w b.buffer (omega arith)

    behind : drop (suc w) filled ≡ xs ++ rest
    behind =
        ap (λ k. drop (suc k) filled) (sym kept) ∙ drop-suc-append (take w b.buffer) x (xs ++ rest)

-- Where a printed form is all that the buffer holds, the loop over its entries completes the body, and
-- the next read of the connection, if it fits into the buffer, loses its first byte: the buffer then
-- holds the bytes behind it.
pub first_byte_lost :
    (fuel : ℕ) (p : Progress) (n v : Bytes) (es : Headers) (x : ℕ) (xs : Bytes)
    → IsEntry n v
    → IsEntries es
    → IsValid p.buffer
    → contents p.buffer ≡ print_body n v es
    → length es < fuel
    → p.buffer.writer_index + 2 + length xs ≤ length p.buffer.buffer
    → (q : Progress) × (b : HyBuffer) × (body_loop fuel p ≡ ok q)
      × (q.context.state ≡ all_ok)
      × (read_fd q.buffer (some (x ∷ xs)) ≡ ok (b, some (suc (length xs))))
      × (contents b ≡ xs)
first_byte_lost fuel p n v es x xs h hs valid e f room =
    let (q, run, d) = body_loop_lem fuel p n v es h hs valid e f in
    let (b, read, left) = read_behind x xs valid d (omega (arith, d.writer, ap length d.same)) in
    (q, b, run, d.complete, read, left)
