-- ===== src/Http/Context.antt =====
-- include/network/http/HttpContext.hpp and src/HttpContext.cpp: the request parser of a connection.
pub mod Line
pub mod Termination
pub mod Headers
pub mod RoundTrip
pub mod Body
pub mod Alike
pub mod Congruence
pub mod Growth
pub mod Rejection
pub mod Split
use hydrogen_web.Common.{
  ℕ, zero, suc, ◌+◌, ◌-◌, ◌%◌, ◌*◌, ◌^◌, ◌≤◌, Bool, true, false, ◌||◌, ◌&&◌, Option, none, some,
  List, [], ◌∷◌, ◌==◌, leb, ltb, if◌then◌else◌, take, drop, length, get_or,
}
use hydrogen_web.Common.Bytes.{Bytes, codes, bytes_eq, index_of}
use hydrogen_web.Common.Fault.{Result, ok, err, exception, stuck, guard, ◌>>=◌, ◌>>◌}
use hydrogen_web.HyBuffer.{
  HyBuffer, readable, readable_bytes, get_crlf, get_and, get_assignment, get_eol, clear_until,
}
use hydrogen_web.Http.Request.{
  HttpRequest, Method, invalid, get, post, http10, http11, empty_request, set_version, set_method,
  set_path, set_query, set_receive_time, is_space, add_header, get_header, add_body,
}

pub data HttpRequestState : Type 0 where
  expect_request_line expect_headers expect_body all_ok : HttpRequestState

pub record HttpContext : Type 0 where
  pub state : HttpRequestState
  pub request : HttpRequest

-- `HttpContext()`
abbrev pub empty_context : HttpContext
empty_context = record { state = expect_request_line; request = empty_request }

unfoldable pub is_all_ok : HttpContext → Bool
is_all_ok c = elim c.state [ all_ok ↦ true | _ ↦ false ]

-- `reset`: all but `_bodys`, which `swap` leaves alone.
unfoldable pub reset : HttpContext → HttpContext
reset c = record {
  state = expect_request_line;
  request = record empty_request { bodys = c.request.bodys };
}

-- The part of `parseRequestLine` behind the second space.
unfoldable pub parse_version : HttpRequest → Bytes → Result (Bool × HttpRequest)
parse_version r v =
    if length v == 8 && bytes_eq (take 7 v) (codes "HTTP/1.")
    then (if get_or v 7 0 == b'1'
        then (set_version r http11 >>= λ r'. ok (true, r'))
        else (if get_or v 7 0 == b'0'
            then (set_version r http10 >>= λ r'. ok (true, r'))
            else ok (false, r)))
    else ok (false, r)

-- Path and query, from the bytes between the two spaces.
unfoldable pub set_target : HttpRequest → Bytes → HttpRequest
set_target r target = elim (index_of b'?' target) [
  | none ↦ set_path r target
  | some q ↦ set_query (set_path r (take q target)) (drop (suc q) target)
]

-- The part of `parseRequestLine` behind the first space.
unfoldable pub parse_target : HttpRequest → Bytes → Result (Bool × HttpRequest)
parse_target r rest = elim (index_of 0x20 rest) [
  | none ↦ ok (false, r)
  | some i ↦ parse_version (set_target r (take i rest)) (drop (suc i) rest)
]

unfoldable pub parse_request_line : HttpRequest → Bytes → Result (Bool × HttpRequest)
parse_request_line r line = elim (index_of 0x20 line) [
  | none ↦ ok (false, r)
  | some i ↦ set_method r (take i line) >>= λ m.
      if m.0 then parse_target m.1 (drop (suc i) line) else ok (false, m.1)
]

-- The locals and the state of `parseRequest` at the head of its loop.
pub record Progress : Type 0 where
  pub correct : Bool
  pub has_more : Bool
  pub context : HttpContext
  pub buffer : HyBuffer

abbrev pub stop : Progress → Progress
stop p = record p { has_more = false }

abbrev pub fail : Progress → Progress
fail p = record p { correct = false; has_more = false }

-- The request line has been parsed with the result `m`; its CRLF stands at `i`.
unfoldable pub after_request_line : Progress → ℕ → ℕ → Bool × HttpRequest → Progress
after_request_line p now i (true, r) = record p {
  correct = true;
  context = record { state = expect_headers; request = set_receive_time r now };
  buffer = clear_until p.buffer (i + 2);
}
after_request_line p now i (false, r) =
    fail (record p { context = record { state = p.context.state; request = r } })

unfoldable pub step_request_line : Progress → ℕ → Result Progress
step_request_line p now = get_crlf p.buffer >>= λ found. elim found [
  | none ↦ ok (stop p)
  | some i ↦ readable p.buffer >>= λ content.
      parse_request_line p.context.request (take i content) >>= λ m.
      ok (after_request_line p now i m)
]

-- The request is complete, and the loop ends.
abbrev pub complete : Progress → Progress
complete p = stop (record p { context = record p.context { state = all_ok } })

-- The state after an empty line, and whether the loop goes on.
unfoldable pub end_of_headers : Progress → Progress
end_of_headers p = elim p.context.request.method [
  | get ↦ complete p
  | _ ↦ record p { context = record p.context { state = expect_body } }
]

-- One header line, whose CRLF stands at `i`. The value that `addHeader` sees goes up to and
-- including the CR.
unfoldable pub header_line : Progress → Bytes → ℕ → Progress
header_line p content i = elim (index_of b':' (take i content)) [
  | some c ↦ record p {
    context = record p.context {
      request = add_header p.context.request (take c content) (take (i - c) (drop (suc c) content));
    };
  }
  | none ↦ end_of_headers p
]

abbrev pub consume : Progress → ℕ → Progress
consume p n = record p { buffer = clear_until p.buffer n }

unfoldable pub step_headers : Progress → Result Progress
step_headers p = get_crlf p.buffer >>= λ found. elim found [
  | none ↦ ok (stop p)
  | some i ↦ readable p.buffer >>= λ content. ok (consume (header_line p content i) (i + 2))
]

-- The digits that `std::stoi` reads, most significant first.
unfoldable pub stoi_digits : ℕ → Bytes → ℕ
stoi_digits acc [] = acc
stoi_digits acc (x ∷ xs) =
    let rest = stoi_digits (acc * 10 + (x - b'0')) xs in
    if leb b'0' x && leb x b'9' then rest else acc

abbrev pub starts_with_digit : Bytes → Bool
starts_with_digit [] = false
starts_with_digit (x ∷ xs) = leb b'0' x && leb x b'9'

-- `std::stoi` behind the sign: the `int` as a 32-bit pattern, and an exception if there is no digit
-- or the number does not fit.
unfoldable pub stoi_magnitude : Bool → Bytes → Result ℕ
stoi_magnitude negative s =
    guard (starts_with_digit s) exception
    >> (if negative
        then (guard (leb (stoi_digits 0 s) (2 ^ 31)) exception
            >> ok ((2 ^ 32 - stoi_digits 0 s) % 2 ^ 32))
        else (guard (ltb (stoi_digits 0 s) (2 ^ 31)) exception >> ok (stoi_digits 0 s)))

-- `std::stoi`: leading white space, one sign, digits.
unfoldable pub stoi : Bytes → Result ℕ
stoi [] = err exception
stoi (x ∷ xs) =
    let rest = stoi xs in
    if is_space x
    then rest
    else (if x == b'-'
        then stoi_magnitude true xs
        else (if x == b'+' then stoi_magnitude false xs else stoi_magnitude false (x ∷ xs)))

-- An entry has been added: `=` stands at `a` and `&`, or the end, at `e`.
abbrev pub entered : Progress → Bytes → ℕ → ℕ → Progress
entered p content a e = record p {
  context = record p.context {
    request = add_body p.context.request (take a content) (take (e - suc a) (drop (suc a) content));
  };
  buffer = clear_until p.buffer (e + 1);
}

-- `addBody(payload(), payload() + a, payload() + e)`; the constructor of the value throws where the
-- range ends before it starts.
unfoldable pub body_entry : Progress → Bytes → ℕ → ℕ → Result Progress
body_entry p content a e = guard (leb (suc a) e) exception >> ok (entered p content a e)

-- The loop over the entries of a body.
unfoldable pub body_loop : ℕ → Progress → Result Progress
body_loop zero p = err stuck
body_loop (suc fuel) p = get_assignment p.buffer >>= λ assignment. elim assignment [
  | none ↦ ok (fail p)
  | some a ↦ readable p.buffer >>= λ content. get_and p.buffer >>= λ separator. elim separator [
    | some e ↦ body_entry p content a e >>= body_loop fuel
    | none ↦ body_entry p content a (get_eol p.buffer) >>= λ p'. ok (complete p')
  ]
]

unfoldable pub step_body : Progress → Result Progress
step_body p = stoi (get_header p.context.request (codes "Content-Length")) >>= λ content_length.
    if content_length == readable_bytes p.buffer % 2 ^ 32
    then body_loop (suc (readable_bytes p.buffer)) p
    else ok (fail p)

-- One round of the loop of `parseRequest`.
unfoldable pub step : HttpRequestState → Progress → ℕ → Result Progress
step expect_request_line p now = step_request_line p now
step expect_headers p now = step_headers p
step expect_body p now = step_body p
step all_ok p now = ok p

unfoldable pub parse_loop : ℕ → ℕ → Progress → Result Progress
parse_loop zero now p = err stuck
parse_loop (suc fuel) now p = elim p.has_more [
  | false ↦ ok p
  | true ↦ step p.context.state p now >>= parse_loop fuel now
]

-- `parseRequest`, with fuel for three rounds and one for each readable byte.
unfoldable pub parse_request : HttpContext → HyBuffer → ℕ → Result Progress
parse_request c b now =
    parse_loop (3 + readable_bytes b) now
      (record { correct = true; has_more = true; context = c; buffer = b })
