-- ===== src/Http/Context/RoundTrip.antt =====
-- HttpContext: a whole GET request, parsed after it is printed.
use hydrogen_web.Common.{
  ℕ, suc, ◌+◌, ◌≤◌, ◌≡◌, ◌≢◌, refl, ap, ◌∙◌, true, Option, none, some, [], ◌∷◌, ◌++◌, arith, length,
  length-append, take-append_self, drop-suc-append,
}
use hydrogen_web.Common.Bytes.{
  Bytes, codes, bytes_eq, Free, index_of, index_of-append, index_of-Free,
}
use hydrogen_web.Common.Fault.{ok}
use hydrogen_web.HyBuffer.{HyBuffer, readable_bytes, clear_until}
use hydrogen_web.HyBuffer.Window.{IsValid, contents, length-contents}
use hydrogen_web.HyBuffer.Reading.{readable_lem}
use hydrogen_web.HyBuffer.Searching.{crlf}
use hydrogen_web.Http.Request.{
  HttpRequest, Method, Version, get, post, invalid, unknown, http10, http11, set_method,
  set_version, set_path, set_query, set_receive_time, empty_request, find_or_empty,
}
use hydrogen_web.Http.Context.{
  empty_context, expect_headers, all_ok, Progress, parse_version, set_target, parse_target,
  parse_request_line, after_request_line, step_request_line, step, parse_loop, parse_request,
}
use hydrogen_web.Http.Context.Line.{line_lem}
use hydrogen_web.Http.Context.Headers.{
  Free-append, Headers, IsHeaders, print_headers, insert_all, header_text, headers_loop_lem,
  parse_loop_round,
}

-- A path and, behind a question mark, a query.
abbrev pub target_text : Bytes → Option Bytes → Bytes
target_text path none = path
target_text path (some query) = path ++ b'?' ∷ query

abbrev pub with_target : HttpRequest → Bytes → Option Bytes → HttpRequest
with_target r path none = record r { path = path }
with_target r path (some query) = record r { path = path; query = query }

abbrev pub version_text : Version → Bytes
version_text http10 = codes "HTTP/1.0"
version_text _ = codes "HTTP/1.1"

abbrev pub method_text : Method → Bytes
method_text post = codes "POST"
method_text _ = codes "GET"

set_target_lem :
    (r : HttpRequest) (path : Bytes) (query : Option Bytes)
    → Free b'?' path
    → set_target r (target_text path query) ≡ with_target r path query
unfolding set_target set_path set_query
set_target_lem r path none f = rw (index_of-Free b'?' path f, set_target)
set_target_lem r path (some query) f = rw (
  index_of-append b'?' path query f,
  set_target,
  take-append_self path (b'?' ∷ query),
  drop-suc-append path b'?' query,
)

parse_version_lem :
    (r : HttpRequest)
    → r.version ≡ unknown
    → (parse_version r (codes "HTTP/1.1") ≡ ok (true, record r { version = http11 }))
      × (parse_version r (codes "HTTP/1.0") ≡ ok (true, record r { version = http10 }))
unfolding parse_version set_version bytes_eq
parse_version_lem r e = ground arith

-- A request line without its CRLF.
abbrev pub line_text : Method → Bytes → Option Bytes → Version → Bytes
line_text m path query v = method_text m ++ 0x20 ∷ (target_text path query ++ 0x20 ∷ version_text v)

parse_target_lem :
    (r : HttpRequest) (path : Bytes) (query : Option Bytes) (version : Bytes)
    → Free 0x20 (target_text path query)
    → Free b'?' path
    → parse_target r (target_text path query ++ 0x20 ∷ version)
      ≡ parse_version (with_target r path query) version
unfolding parse_target
parse_target_lem r path query version f q =
    let t = target_text path query in
    rw (
      index_of-append 0x20 t version f,
      parse_target,
      take-append_self t (0x20 ∷ version),
      drop-suc-append t 0x20 version,
      set_target_lem r path query q,
    )

set_method_lem :
    (r : HttpRequest)
    → r.method ≡ invalid
    → (set_method r (codes "GET") ≡ ok (true, record r { method = get }))
      × (set_method r (codes "POST") ≡ ok (true, record r { method = post }))
unfolding set_method
set_method_lem r e = ground arith

abbrev pub IsTarget : Bytes → Option Bytes → Type 0
IsTarget path query =
    Free 0x20 (target_text path query) × Free b'?' path × Free 0x0d (target_text path query)

-- The request after its line.
abbrev pub with_line : HttpRequest → Method → Bytes → Option Bytes → Version → HttpRequest
with_line r m path query v = record (with_target (record r { method = m }) path query) {
  version = v;
}

version-with_target :
    (r : HttpRequest) (path : Bytes) (query : Option Bytes)
    → (with_target r path query).version ≡ r.version
version-with_target r path none = refl
version-with_target r path (some q) = refl

parse_version_text :
    (r : HttpRequest) (v : Version)
    → r.version ≡ unknown
    → v ≢ unknown
    → parse_version r (version_text v) ≡ ok (true, record r { version = v })
parse_version_text r unknown e h = absurd (h refl)
parse_version_text r http10 e h = (parse_version_lem r e).1
parse_version_text r http11 e h = (parse_version_lem r e).0

behind_method :
    (r : HttpRequest) (m : Method) (path : Bytes) (query : Option Bytes) (v : Version)
    → r.version ≡ unknown
    → v ≢ unknown
    → IsTarget path query
    → parse_target (record r { method = m }) (target_text path query ++ 0x20 ∷ version_text v)
      ≡ ok (true, with_line r m path query v)
behind_method r m path query v e h t =
    let s : HttpRequest = record r { method = m } in
    parse_target_lem s path query (version_text v) t.0 t.1
    ∙ parse_version_text (with_target s path query) v (version-with_target s path query ∙ e) h

-- The request line that is printed for a method, a target and a version is parsed back.
pub parse_request_line_lem :
    (r : HttpRequest) (m : Method) (path : Bytes) (query : Option Bytes) (v : Version)
    → r.method ≡ invalid
    → r.version ≡ unknown
    → m ≢ invalid
    → v ≢ unknown
    → IsTarget path query
    → parse_request_line r (line_text m path query v) ≡ ok (true, with_line r m path query v)
unfolding parse_request_line index_of
parse_request_line_lem r invalid path query v i u n h t = absurd (n refl)
parse_request_line_lem r get path query v i u n h t =
    rw (set_method_lem r i).0 (behind_method r get path query v u h t)
parse_request_line_lem r post path query v i u n h t =
    rw (set_method_lem r i).1 (behind_method r post path query v u h t)

abbrev pub request_text : Bytes → Option Bytes → Version → Headers → Bytes → Bytes
request_text path query v hs rest = line_text get path query v ++ (crlf ++ print_headers hs rest)

length-le-print_headers : (hs : Headers) (rest : Bytes) → length hs ≤ length (print_headers hs rest)
length-le-print_headers [] rest = omega arith
length-le-print_headers ((n, v) ∷ hs) rest = omega (
  arith,
  length-append (header_text n v) (crlf ++ print_headers hs rest),
  length-le-print_headers hs rest,
)

version_text-Free : (v : Version) → Free 0x0d (version_text v)
version_text-Free unknown = omega arith
version_text-Free http10 = omega arith
version_text-Free http11 = omega arith

line_text-Free :
    (path : Bytes) (query : Option Bytes) (v : Version)
    → IsTarget path query
    → Free 0x0d (line_text get path query v)
line_text-Free path query v t =
    let rest =
      Free-append 0x0d (target_text path query) (0x20 ∷ version_text v) t.2
        (λ e. cc, version_text-Free v) in
    (λ e. cc, (λ e. cc, (λ e. cc, (λ e. cc, rest))))

-- The progress after the request line.
after_line : Progress → ℕ → Bytes → Option Bytes → Version → Progress
after_line p now path query v = record p {
  correct = true;
  context = record {
    state = expect_headers;
    request = record (with_line p.context.request get path query v) { receive_time = now };
  };
  buffer = clear_until p.buffer (length (line_text get path query v) + 2);
}

request_line_round :
    (p : Progress) (now : ℕ) (path : Bytes) (query : Option Bytes) (v : Version) (rest : Bytes)
    → p.context.request.method ≡ invalid
    → p.context.request.version ≡ unknown
    → v ≢ unknown
    → IsTarget path query
    → IsValid p.buffer
    → contents p.buffer ≡ line_text get path query v ++ (crlf ++ rest)
    → (step_request_line p now ≡ ok (after_line p now path query v))
      × (contents (after_line p now path query v).buffer ≡ rest)
      × IsValid (after_line p now path query v).buffer
unfolding step_request_line after_request_line set_receive_time after_line
request_line_round p now path query v rest i u h t valid e =
    let line = line_text get path query v in
    let l = line_lem line rest valid (line_text-Free path query v t) e in
    let parsed = parse_request_line_lem p.context.request get path query v i u (λ x. cc) h t in
    (rw (l.0, readable_lem valid, e, take-append_self line (crlf ++ rest), parsed) refl, l.1, l.2)

-- The request that a fresh context holds after a GET request.
abbrev pub get_request : ℕ → Bytes → Option Bytes → Version → Headers → HttpRequest
get_request now path query v hs = record {
  method = get;
  version = v;
  path = path;
  query = find_or_empty query;
  receive_time = now;
  headers = insert_all hs [];
  bodys = [];
}

request-get_request :
    (now : ℕ) (path : Bytes) (query : Option Bytes) (v : Version) (hs : Headers)
    → let r : HttpRequest = record (with_line empty_request get path query v) {
      receive_time = now;
    } in
      record r { headers = insert_all hs r.headers } ≡ get_request now path query v hs
request-get_request now path none v hs = refl
request-get_request now path (some q) v hs = refl

method-with_line :
    (r : HttpRequest) (path : Bytes) (query : Option Bytes) (v : Version)
    → (with_line r get path query v).method ≡ get
method-with_line r path none v = refl
method-with_line r path (some q) v = refl

-- A printed GET request, with further bytes behind it, is parsed by a fresh context into exactly its
-- path, query, version and headers; it is complete, and the further bytes are left in the buffer.
pub parse_request-request_text :
    (b : HyBuffer) (now : ℕ) (path : Bytes) (query : Option Bytes) (v : Version) (hs : Headers)
    (rest : Bytes)
    → v ≢ unknown
    → IsTarget path query
    → IsHeaders hs
    → IsValid b
    → contents b ≡ request_text path query v hs rest
    → (q : Progress) × (parse_request empty_context b now ≡ ok q)
      × (q.correct ≡ true)
      × (q.context.state ≡ all_ok)
      × (q.context.request ≡ get_request now path query v hs)
      × (contents q.buffer ≡ rest)
      × IsValid q.buffer
unfolding parse_request step after_line
parse_request-request_text b now path query v hs rest h t hd valid e =
    let l =
      request_line_round start now path query v (print_headers hs rest) refl refl h t valid e in
    let (q, run, d) =
      headers_loop_lem hs rest (2 + readable_bytes b) now (after_line start now path query v) hd l.2
        refl refl (method-with_line empty_request path query v) l.1 fuel in
    (
      q,
      ap (λ k. parse_loop k now start) three ∙ (parse_loop_round _ now start refl l.0 ∙ run),
      d.correct,
      d.complete,
      d.request ∙ request-get_request now path query v hs,
      d.remaining,
      d.valid,
    )
  where
    start : Progress
    start = record { correct = true; has_more = true; context = empty_context; buffer = b }

    three : 3 + readable_bytes b ≡ suc (2 + readable_bytes b)
    three = omega arith

    fuel : length hs + 2 ≤ 2 + readable_bytes b
    fuel = omega (
      arith,
      ap length e,
      length-contents valid,
      length-append (line_text get path query v) (crlf ++ print_headers hs rest),
      length-le-print_headers hs rest,
    )
