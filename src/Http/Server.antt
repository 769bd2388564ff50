-- ===== src/Http/Server.antt =====
-- include/network/http/HttpServer.hpp and src/HttpServer.cpp: requests and responses of a connection,
-- in its loop's thread. The user's callback is a function from a request and a response to the
-- response that it leaves.
pub mod Laws
use hydrogen_web.Common.{
  ℕ, Bool, true, false, ◌&&◌, ◌||◌, not, Option, none, some, List, [], ◌∷◌, ◌++◌, if◌then◌else◌,
  take, drop,
}
use hydrogen_web.Common.Bytes.{Bytes, codes, bytes_eq}
use hydrogen_web.Common.Fault.{Result, ok, ◌>>=◌}
use hydrogen_web.HyBuffer.{HyBuffer, empty_buffer, readable, read_as_string}
use hydrogen_web.Http.Request.{HttpRequest, Version, http10, get_header}
use hydrogen_web.Http.Context.{
  HttpContext, Progress, empty_context, is_all_ok, reset, parse_request,
}
use hydrogen_web.Http.Response.{HttpResponse, new_response, append_to_buffer, non_persistent, crlf}
use hydrogen_web.Net.Connection.{TcpConnection, connected_now, send, shutdown}

abbrev pub is_http10 : Version → Bool
is_http10 http10 = true
is_http10 _ = false

-- Whether the response is to close the connection. The text compared is `closed`, as the source has
-- it, and not `close`.
unfoldable pub wants_close : HttpRequest → Bool
wants_close r =
    bytes_eq (get_header r (codes "Connection")) (codes "closed")
    || (is_http10 r.version
        && not (bytes_eq (get_header r (codes "Connection")) (codes "keep-alive")))

-- A connection with its context.
pub record Session : Type 0 where
  pub conn : TcpConnection
  pub context : HttpContext

-- `onConnection`
unfoldable pub on_connection : Session → Session
on_connection s = if connected_now s.conn then record s { context = empty_context } else s

module _ (http_callback : HttpRequest → HttpResponse → HttpResponse) where
  -- The response to a request.
  unfoldable pub respond : HttpRequest → HttpResponse
  respond r = http_callback r (new_response (wants_close r))

  -- `processRequest`; `outcome` is what the kernel answers to the write of the response.
  unfoldable pub process_request : TcpConnection → HttpRequest → Option ℕ → Result TcpConnection
  process_request c r outcome = append_to_buffer (respond r) empty_buffer >>= λ out.
      readable out >>= λ text.
      send c text outcome >>= λ c'. ok (if non_persistent (respond r) then shutdown c' else c')

  abbrev pub bad_request_text : Bytes
  bad_request_text = codes "HTTP/1.1 400 Bad Request" ++ (crlf ++ crlf)

  -- The part of `onMessage` for a failed parse.
  unfoldable pub reject_bad : Bool → TcpConnection → Option ℕ → Result TcpConnection
  reject_bad true c outcome = ok c
  reject_bad false c outcome = send c bad_request_text outcome >>= λ c'. ok (shutdown c')

  -- The part of `onMessage` for a complete request.
  unfoldable pub answer : HttpContext → TcpConnection → Option ℕ → Result Session
  answer context c outcome =
      if is_all_ok context
      then (process_request c context.request outcome >>= λ c'.
          ok (record { conn = c'; context = reset context }))
      else ok (record { conn = c; context = context })

  -- `onMessage`, with what the kernel answers to the writes of a rejection and of a response.
  unfoldable pub on_message : Session → ℕ → Option ℕ → Option ℕ → Result Session
  on_message s now rejected answered = parse_request s.context s.conn.input_buffer now >>= λ p.
      reject_bad p.correct (record s.conn { input_buffer = p.buffer }) rejected >>= λ c.
      answer p.context c answered
