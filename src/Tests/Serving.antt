-- ===== src/Tests/Serving.antt =====
-- Tests of src/HttpServer.cpp.
use hydrogen_web.Common.{
  ◌+◌, ◌≡◌, ◌≢◌, refl, true, false, none, some, [], ◌∷◌, ◌++◌, arith, length, replicate,
}
use hydrogen_web.Common.Bytes.{Bytes, codes, bytes_eq, compare_bytes}
use hydrogen_web.Common.Dict.{lookup}
use hydrogen_web.Common.Decimal.{digits_onto, decimal}
use hydrogen_web.Common.Fault.{ok}
use hydrogen_web.HyBuffer.{slice, readable, crlf_index, get_crlf}
use hydrogen_web.HyBuffer.Window.{IsValid, contents}
use hydrogen_web.Http.Request.{HttpRequest, http11, empty_request, get_header}
use hydrogen_web.Http.Context.{
  empty_context, all_ok, parse_request, parse_loop, step, step_request_line, is_all_ok,
}
use hydrogen_web.Http.Context.RoundTrip.{IsTarget, request_text, get_request}
use hydrogen_web.Http.Response.{HttpResponse, head_pieces, set_body, set_status_code}
use hydrogen_web.Http.Server.{Session, wants_close, respond, on_message, reject_bad, answer}
use hydrogen_web.Http.Server.Laws.{Answered, on_message-ne_all_ok, on_message-get}
use hydrogen_web.Net.Connection.{TcpConnection, connected}
use hydrogen_web.Net.Connection.Stream.{IsFlowing}

abbrev callback : HttpRequest → HttpResponse → HttpResponse
callback r resp = set_body (set_status_code resp 200) (codes "hi")

abbrev a_request : Bytes
a_request = request_text (codes "/a") none http11 [] (codes "zz")

-- An open connection that has received the request.
abbrev a_connection : TcpConnection
a_connection = record {
  state = connected;
  events = record { read_event = true; write_event = false };
  registered = true;
  input_buffer = record {
    buffer = replicate 8 0 ++ (a_request ++ replicate 8 0);
    reader_index = 8;
    writer_index = 8 + length a_request;
  };
  output_buffer = record { buffer = replicate 200 0; reader_index = 8; writer_index = 8 };
  sent = [];
  write_closed = false;
}

abbrev a_session : Session
a_session = record { conn = a_connection; context = empty_context }

a_connection-IsFlowing : IsFlowing a_connection
a_connection-IsFlowing = record {
  output = record {
    front = omega arith;
    order = omega arith;
    within = omega arith;
    small = omega arith;
  };
  watched = λ _. refl;
  pending = λ e. cc;
  flushed = λ e. cc;
  closing = λ e. cc;
}

input-IsValid : IsValid a_connection.input_buffer
input-IsValid = record {
  front = omega arith;
  order = omega arith;
  within = omega arith;
  small = omega arith;
}

a-IsTarget : IsTarget (codes "/a") none
a-IsTarget = (ground arith, ground arith, ground arith)

on_message-get_example :
    (s' : Session) × (on_message callback a_session 5 none (some 3) ≡ ok s')
    × Answered callback a_connection (get_request 5 (codes "/a") none http11 []) s'.conn
    × (contents s'.conn.input_buffer ≡ codes "zz")
    × (s'.context ≡ empty_context)
unfolding respond wants_close head_pieces decimal digits_onto get_header lookup bytes_eq
    compare_bytes
on_message-get_example =
    on_message-get callback a_session 5 none (some 3) (codes "/a") none http11 [] (codes "zz")
      (λ e. cc) a-IsTarget tt refl a_connection-IsFlowing refl input-IsValid refl
      (omega arith, omega arith, omega arith)

-- A client that sends `Connection: close`.
abbrev closing_request : HttpRequest
closing_request = record empty_request {
  version = http11;
  headers = (codes "Connection", codes "close") ∷ [];
}

-- The connection before anything has arrived.
abbrev idle_session : Session
idle_session = record a_session {
  conn = record a_connection {
    input_buffer = record { buffer = replicate 8 0; reader_index = 8; writer_index = 8 };
  };
}

on_message-ne_all_ok_example : idle_session.context.state ≢ all_ok
unfolding on_message reject_bad answer parse_request parse_loop step step_request_line get_crlf
    slice readable crlf_index is_all_ok
on_message-ne_all_ok_example =
    on_message-ne_all_ok callback idle_session 5 none none {s' = idle_session} refl
