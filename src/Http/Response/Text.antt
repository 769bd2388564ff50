-- ===== src/Http/Response/Text.antt =====
-- HttpResponse: the text of a response as HTTP writes it, line by line.
use hydrogen_web.Common.{
  ◌≤◌, ◌<◌, ◌≡◌, refl, sym, ap, ◌∙◌, Bool, true, false, List, [], ◌∷◌, ◌++◌, append_assoc,
  append-nil, arith, length, length-append, take, take-length_le, Bool-cases, inl, inr,
}
use hydrogen_web.Common.Bytes.{Bytes, codes}
use hydrogen_web.Common.Dict.{Dict}
use hydrogen_web.Common.Decimal.{decimal, length-decimal, ten}
use hydrogen_web.Common.Fault.{ok}
use hydrogen_web.HyBuffer.{HyBuffer, empty_buffer, initial_size}
use hydrogen_web.HyBuffer.Window.{IsValid, contents}
use hydrogen_web.Http.Response.{
  HttpResponse, crlf, format_buf, header_pieces, connection_pieces, head_pieces, pieces,
  append_to_buffer,
}
use hydrogen_web.Http.Response.Render.{joined, append_to_buffer-pieces}

-- Lines, each with its end, in front of a text.
abbrev pub text_lines : List Bytes → Bytes → Bytes
text_lines [] rest = rest
text_lines (l ∷ ls) rest = l ++ (crlf ++ text_lines ls rest)

abbrev pub status_line : HttpResponse → Bytes
status_line r = codes "HTTP/1.1 " ++ (decimal r.status_code ++ (codes " " ++ r.status_msg))

-- The lines about the connection, by `close_connection`.
abbrev pub connection_lines : Bool → Bytes → List Bytes
connection_lines true body = codes "Connection: close" ∷ []
connection_lines false body =
    (codes "Content-Length: " ++ decimal (length body)) ∷ codes "Connection: keep-alive" ∷ []

abbrev pub header_lines : Dict → List Bytes
header_lines [] = []
header_lines ((k, v) ∷ m) = (k ++ (codes ": " ++ v)) ∷ header_lines m

-- The text of a response: the status line, the lines about the connection, a line for each header, an
-- empty line and the body.
abbrev pub response_text : HttpResponse → Bytes
response_text r = text_lines (status_line r ∷ []) (
    text_lines (connection_lines r.close_connection r.body)
      (text_lines (header_lines r.headers) (crlf ++ r.body)))

-- The pieces behind the connection.
abbrev tail_pieces : HttpResponse → Dict → List Bytes
tail_pieces r m = (header_pieces m ++ (crlf ∷ [])) ++ r.body ∷ []

joined-tail_pieces :
    (r : HttpResponse) (m : Dict)
    → joined (tail_pieces r m) ≡ text_lines (header_lines m) (crlf ++ r.body)
joined-tail_pieces r [] = ap (λ t. crlf ++ t) (append-nil r.body)
joined-tail_pieces r ((k, v) ∷ m) =
    ap (λ t. k ++ (codes ": " ++ (v ++ (crlf ++ t)))) (joined-tail_pieces r m)
    ∙ sym (append_assoc k (codes ": " ++ v) (crlf ++ text_lines (header_lines m) (crlf ++ r.body)))

length_fits :
    (body : Bytes)
    → length body < ten 13
    → take 15 (decimal (length body) ++ crlf) ≡ decimal (length body) ++ crlf
length_fits body h =
    let d = length-decimal (length body) 12 h in
    take-length_le 15 (decimal (length body) ++ crlf)
      (omega (arith, length-append (decimal (length body)) crlf))

joined-connection_pieces :
    (r : HttpResponse) (ts : List Bytes)
    → length r.body < ten 13
    → joined (connection_pieces r ++ ts)
      ≡ text_lines (connection_lines r.close_connection r.body) (joined ts)
joined-connection_pieces r ts h = elim (Bool-cases r.close_connection) [
  | inl e ↦ rw (e) refl
  | inr e ↦
      rw (e, length_fits r.body h)
        (ap (λ t. codes "Content-Length: " ++ t)
          (append_assoc (decimal (length r.body)) crlf
            (codes "Connection: keep-alive" ++ (crlf ++ joined ts))))
]

head_pieces_lem :
    (r : HttpResponse)
    → pieces r
      ≡ format_buf (codes "HTTP/1.1 " ++ (decimal r.status_code ++ codes " "))
        ∷ r.status_msg
        ∷ crlf
        ∷ ((connection_pieces r ++ (header_pieces r.headers ++ (crlf ∷ []))) ++ r.body ∷ [])
unfolding head_pieces
head_pieces_lem r = refl

joined-pieces :
    (r : HttpResponse)
    → r.status_code < ten 10
    → length r.body < ten 13
    → joined (pieces r) ≡ response_text r
joined-pieces r h k =
    let d = length-decimal r.status_code 9 h in
    let fits : format_buf (codes "HTTP/1.1 " ++ (decimal r.status_code ++ codes " "))
        ≡ codes "HTTP/1.1 " ++ (decimal r.status_code ++ codes " ") =
      take-length_le 31 (codes "HTTP/1.1 " ++ (decimal r.status_code ++ codes " "))
        (omega (arith, length-append (decimal r.status_code) (codes " "))) in
    let rest : joined
          ((connection_pieces r ++ (header_pieces r.headers ++ (crlf ∷ []))) ++ r.body ∷ [])
        ≡ text_lines (connection_lines r.close_connection r.body)
            (text_lines (header_lines r.headers) (crlf ++ r.body)) =
      ap joined
        (append_assoc (connection_pieces r) (header_pieces r.headers ++ (crlf ∷ [])) (r.body ∷ []))
      ∙ joined-connection_pieces r (tail_pieces r r.headers) k
      ∙ ap (text_lines (connection_lines r.close_connection r.body))
          (joined-tail_pieces r r.headers) in
    let tail =
      text_lines (connection_lines r.close_connection r.body)
        (text_lines (header_lines r.headers) (crlf ++ r.body)) in
    ap joined (head_pieces_lem r)
    ∙ ap
        (λ t.
          t
          ++ (r.status_msg
              ++ (crlf
                  ++ joined (
                      (connection_pieces r ++ (header_pieces r.headers ++ (crlf ∷ [])))
                      ++ r.body ∷ []))))
        fits
    ∙ ap
        (λ t.
          (codes "HTTP/1.1 " ++ (decimal r.status_code ++ codes " "))
          ++ (r.status_msg ++ (crlf ++ t)))
        rest
    ∙ ap (λ t. codes "HTTP/1.1 " ++ t)
        (append_assoc (decimal r.status_code) (codes " ") (r.status_msg ++ (crlf ++ tail))
          ∙ sym (append_assoc (decimal r.status_code) (codes " " ++ r.status_msg) (crlf ++ tail)))

-- The text has a body's length at least.
length-text_lines : (ls : List Bytes) (rest : Bytes) → length rest ≤ length (text_lines ls rest)
length-text_lines [] rest = omega arith
length-text_lines (l ∷ ls) rest =
    let e = length-text_lines ls rest in
    omega (arith, e, length-append l (crlf ++ text_lines ls rest))

body_fits : (r : HttpResponse) → length r.body ≤ length (response_text r)
body_fits r =
    let a = length-text_lines (header_lines r.headers) (crlf ++ r.body) in
    let b =
      length-text_lines (connection_lines r.close_connection r.body)
        (text_lines (header_lines r.headers) (crlf ++ r.body)) in
    let c = length-text_lines (status_line r ∷ []) (
      text_lines (connection_lines r.close_connection r.body)
        (text_lines (header_lines r.headers) (crlf ++ r.body))) in
    omega (arith, a, b, c)

-- A response whose status code has at most ten digits, and whose text has at most the initial size of a
-- buffer, is written to a new buffer without a fault, and the readable bytes are its text: the status line,
-- the line that announces the close or the two with the length of the body and the keep-alive, a line for
-- each header in the order of the map, an empty line and the body.
pub append_to_buffer-response_text :
    (r : HttpResponse)
    → r.status_code < ten 10
    → length (response_text r) ≤ initial_size
    → (b : HyBuffer) × (append_to_buffer r empty_buffer ≡ ok b)
      × (contents b ≡ response_text r)
      × IsValid b
append_to_buffer-response_text r h k =
    let same = joined-pieces r h (omega (arith, body_fits r)) in
    let (b, run, c, v) = append_to_buffer-pieces r (omega (arith, ap length same)) in
    (b, run, c ∙ same, v)
