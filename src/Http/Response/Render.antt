-- ===== src/Http/Response/Render.antt =====
-- HttpResponse: the text that `appendToBuffer` leaves in a buffer.
use hydrogen_web.Common.{
  ◌+◌, ◌≤◌, ◌<◌, ◌≡◌, refl, sym, ap, ◌∙◌, List, [], ◌∷◌, ◌++◌, append_assoc, append-nil, arith,
  length, length-append,
}
use hydrogen_web.Common.Bytes.{Bytes}
use hydrogen_web.Common.Fault.{ok, err, ok-injective, out_of_bounds, >>=-eq-ok}
use hydrogen_web.HyBuffer.{HyBuffer, append, empty_buffer, initial_size}
use hydrogen_web.HyBuffer.Window.{IsValid, contents, length-copied, length-contents}
use hydrogen_web.HyBuffer.Append.{append_here, written, written-IsValid, append_overruns}
use hydrogen_web.Http.Response.{HttpResponse, pieces, head_pieces, append_all, append_to_buffer}

-- The texts one after another.
abbrev pub joined : List Bytes → Bytes
joined [] = []
joined (t ∷ ts) = t ++ joined ts

append_all_lem :
    (b : HyBuffer) (ts : List Bytes)
    → IsValid b
    → b.writer_index + length (joined ts) ≤ length b.buffer
    → (b' : HyBuffer) × (append_all b ts ≡ ok b')
      × (contents b' ≡ contents b ++ joined ts)
      × IsValid b'
      × (b'.reader_index ≡ b.reader_index)
      × (length b'.buffer ≡ length b.buffer)
unfolding append_all
append_all_lem b [] v room = (b, refl, sym (append-nil _), v, refl, refl)
append_all_lem b (t ∷ ts) v room =
    let fits : b.writer_index + length t + length (joined ts) ≤ length b.buffer =
      omega (arith, length-append t (joined ts)) in
    let w = written-IsValid t v (omega arith) in
    let (b', run, c, valid, reader, size) =
      append_all_lem (written b t) ts w.0
        (omega (arith, length-copied b.buffer b.writer_index t)) in
    (
      b',
      rw (append_here t v (omega arith)) run,
      c ∙ (ap (λ x. x ++ joined ts) w.1 ∙ append_assoc (contents b) t (joined ts)),
      valid,
      reader,
      size ∙ length-copied b.buffer b.writer_index t (omega arith),
    )

empty_buffer-IsValid : IsValid empty_buffer
unfolding empty_buffer
empty_buffer-IsValid = omega arith

-- A response whose text has at most the initial size of a buffer is written to a new buffer without a
-- fault, and the readable bytes are its text: status line, connection lines, headers in the order of
-- their names, an empty line and the body.
pub append_to_buffer-pieces :
    (r : HttpResponse)
    → length (joined (pieces r)) ≤ initial_size
    → (b : HyBuffer) × (append_to_buffer r empty_buffer ≡ ok b)
      × (contents b ≡ joined (pieces r))
      × IsValid b
unfolding append_to_buffer empty_buffer
append_to_buffer-pieces r h =
    let (b, run, c, v, _, _) =
      append_all_lem empty_buffer (pieces r) empty_buffer-IsValid (omega arith) in
    (b, run, c, v)

append_all-append :
    (b : HyBuffer) (ts us : List Bytes) {b' : HyBuffer}
    → append_all b ts ≡ ok b'
    → append_all b (ts ++ us) ≡ append_all b' us
unfolding append_all
append_all-append b [] us e = ap (λ x. append_all x us) (ok-injective e)
append_all-append b (t ∷ ts) us {b'} e =
    let (m, f, g) = >>=-eq-ok (append b t) (λ x. append_all x ts) e in
    rw f (append_all-append m ts us g)

last_overruns :
    (r : HttpResponse) (b : HyBuffer)
    → IsValid b
    → b.reader_index + length r.body ≤ length b.buffer
    → length b.buffer < b.writer_index + length r.body
    → append_all b (r.body ∷ []) ≡ err out_of_bounds
unfolding append_all
last_overruns r b v h k = rw (append_overruns r.body v (λ f. omega arith)) refl

-- A response whose head fits into a new buffer, and whose body would fit alone but not behind the
-- head, is written outside of the buffer.
pub append_to_buffer_overruns :
    (r : HttpResponse)
    → length (joined (head_pieces r)) ≤ initial_size
    → length r.body ≤ initial_size
    → initial_size < length (joined (head_pieces r)) + length r.body
    → append_to_buffer r empty_buffer ≡ err out_of_bounds
unfolding append_to_buffer empty_buffer
append_to_buffer_overruns r h k l =
    let (b, run, c, v, reader, size) =
      append_all_lem empty_buffer (head_pieces r) empty_buffer-IsValid (omega arith) in
    append_all-append empty_buffer (head_pieces r) (r.body ∷ []) run
    ∙ last_overruns r b v (omega (arith, reader, size))
        (omega (arith, reader, size, ap length c, length-contents v))
