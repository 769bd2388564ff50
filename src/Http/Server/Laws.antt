-- ===== src/Http/Server/Laws.antt =====
-- HttpServer: a request that arrives is answered on the connection's stream.
use hydrogen_web.Common.{
  ℕ, ◌+◌, ◌≤◌, ◌≡◌, ◌≢◌, refl, sym, ap, ◌∙◌, subst, inl, inr, Bool, true, false, Option, ◌++◌, [],
  arith, length, not, if◌then◌else◌, Bool-cases,
}
use hydrogen_web.Common.Bytes.{Bytes, codes, bytes_eq, compare_bytes}
use hydrogen_web.Common.Fault.{ok, >>=-eq-ok, ok-injective, ◌>>=◌}
use hydrogen_web.HyBuffer.{initial_size}
use hydrogen_web.HyBuffer.Window.{IsValid, contents}
use hydrogen_web.HyBuffer.Reading.{readable_lem}
use hydrogen_web.Http.Request.{HttpRequest, Version, unknown, http11, get_header}
use hydrogen_web.Http.Context.{
  HttpContext, Progress, all_ok, is_all_ok, empty_context, reset, parse_request,
}
use hydrogen_web.Http.Context.Headers.{Headers, IsHeaders}
use hydrogen_web.Http.Context.RoundTrip.{
  IsTarget, request_text, get_request, parse_request-request_text,
}
use hydrogen_web.Http.Response.{HttpResponse, pieces, non_persistent}
use hydrogen_web.Http.Response.Render.{joined, append_to_buffer-pieces}
use hydrogen_web.Http.Server.{
  Session, wants_close, respond, process_request, reject_bad, answer, on_message,
}
use hydrogen_web.Net.Connection.{
  TcpConnection, is_connected, shutdown, shutdown_in_loop_thread, taken,
}
use hydrogen_web.Net.Connection.Stream.{IsFlowing, stream}
use hydrogen_web.Net.Connection.Sending.{send_in_loop_thread-stream}
use hydrogen_web.Net.Connection.Life.{send_lem, shutdown-stream}

-- A client that asks for `Connection: close` over HTTP/1.1 is kept alive: the code looks for `closed`.
pub wants_close_ignores_close :
    (r : HttpRequest)
    → get_header r (codes "Connection") ≡ codes "close"
    → r.version ≡ http11
    → wants_close r ≡ false
unfolding wants_close bytes_eq compare_bytes
wants_close_ignores_close r h v = rw (h, v) refl

shutdown-state :
    (c : TcpConnection)
    → (is_connected (shutdown c).state ≡ false) × ((shutdown c).input_buffer ≡ c.input_buffer)
unfolding shutdown shutdown_in_loop_thread
shutdown-state c = ground arith

is_all_ok_lem : (context : HttpContext) → context.state ≡ all_ok → is_all_ok context ≡ true
unfolding is_all_ok
is_all_ok_lem context h = ground arith

reset-eq_empty : (c : HttpContext) → c.request.bodys ≡ [] → reset c ≡ empty_context
unfolding reset
reset-eq_empty c h = ground arith

module _ (http_callback : HttpRequest → HttpResponse → HttpResponse) where
  reset-ne_all_ok : (c : HttpContext) → (reset c).state ≢ all_ok
  unfolding reset
  reset-ne_all_ok c e = cc

  answer_complete :
      (context : HttpContext) (c : TcpConnection) (outcome : Option ℕ)
      → is_all_ok context ≡ true
      → answer http_callback context c outcome ≡ (
          process_request http_callback c context.request outcome >>= λ c'.
          ok (record { conn = c'; context = reset context }))
  unfolding answer
  answer_complete context c outcome h = rw (h, answer) refl

  answer_incomplete :
      (context : HttpContext) (c : TcpConnection) (outcome : Option ℕ)
      → is_all_ok context ≡ false
      → answer http_callback context c outcome ≡ ok (record { conn = c; context = context })
  unfolding answer
  answer_incomplete context c outcome h = rw (h, answer) refl

  is_all_ok-ne : (context : HttpContext) → is_all_ok context ≡ false → context.state ≢ all_ok
  unfolding is_all_ok
  is_all_ok-ne context h e = ground arith

  answer-ne_all_ok :
      (context : HttpContext) (c : TcpConnection) (outcome : Option ℕ) {s : Session}
      → answer http_callback context c outcome ≡ ok s
      → s.context.state ≢ all_ok
  answer-ne_all_ok context c outcome {s} e = elim (Bool-cases (is_all_ok context)) [
    | inl h ↦
        let (c', _, f) =
          >>=-eq-ok (process_request http_callback c context.request outcome)
            (λ d. ok (record { conn = d; context = reset context }))
            (sym (answer_complete context c outcome h) ∙ e) in
        subst (λ t. t.context.state ≢ all_ok) (ok-injective f) (reset-ne_all_ok context)
    | inr h ↦
        subst (λ t. t.context.state ≢ all_ok)
          (ok-injective (sym (answer_incomplete context c outcome h) ∙ e)) (is_all_ok-ne context h)
  ]

  -- However a message is handled, no complete request is left in the context: `parseRequest` is never
  -- entered in the state in which its loop does not end.
  pub on_message-ne_all_ok :
      (s : Session) (now : ℕ) (rejected answered : Option ℕ) {s' : Session}
      → on_message http_callback s now rejected answered ≡ ok s'
      → s'.context.state ≢ all_ok
  unfolding on_message
  on_message-ne_all_ok s now rejected answered e =
      let (p, _, f) = >>=-eq-ok (parse_request s.context s.conn.input_buffer now) _ e in
      let (c, _, g) =
        >>=-eq-ok
          (reject_bad http_callback p.correct (record s.conn { input_buffer = p.buffer }) rejected)
          _ f in
      answer-ne_all_ok p.context c answered g

  -- The connection after a response.
  abbrev pub Answered : TcpConnection → HttpRequest → TcpConnection → Type 0
  Answered c r c' =
      (stream c' ≡ stream c ++ joined (pieces (respond http_callback r)))
      × IsFlowing c'
      × (is_connected c'.state ≡ not (non_persistent (respond http_callback r)))

  process_request-Answered :
      (c : TcpConnection) (r : HttpRequest) (outcome : Option ℕ)
      → IsFlowing c
      → is_connected c.state ≡ true
      → (let text = joined (pieces (respond http_callback r)) in
          (length text ≤ initial_size)
          × (taken outcome ≤ length text)
          × (c.output_buffer.writer_index + length text ≤ length c.output_buffer.buffer))
      → (c' : TcpConnection) × (process_request http_callback c r outcome ≡ ok c')
        × Answered c r c'
        × (c'.input_buffer ≡ c.input_buffer)
  unfolding process_request
  process_request-Answered c r outcome f live (small, t, room) =
      let (b, render, text, v) = append_to_buffer-pieces (respond http_callback r) small in
      let (d, run, grown, flowing, same, input) =
        send_in_loop_thread-stream c (joined (pieces (respond http_callback r))) outcome f t live
          room in
      (
        (if non_persistent (respond http_callback r) then shutdown d else d),
        rw (render, readable_lem v, text, send_lem c _ outcome live, run) refl,
        (let k = closed d (non_persistent (respond http_callback r)) grown flowing same input in
            (k.0, k.1, k.2)),
        (closed d (non_persistent (respond http_callback r)) grown flowing same input).3,
      )
    where
      closed :
          (d : TcpConnection) (b : Bool)
          → stream d ≡ stream c ++ joined (pieces (respond http_callback r))
          → IsFlowing d
          → d.state ≡ c.state
          → d.input_buffer ≡ c.input_buffer
          → (stream (if b then shutdown d else d)
              ≡ stream c ++ joined (pieces (respond http_callback r)))
            × IsFlowing (if b then shutdown d else d)
            × (is_connected (if b then shutdown d else d).state ≡ not b)
            × ((if b then shutdown d else d).input_buffer ≡ c.input_buffer)
      closed d true g k s i =
          let (e, l) = shutdown-stream d k in
          (e ∙ g, l, (shutdown-state d).0, (shutdown-state d).1 ∙ i)
      closed d false g k s i = (g, k, ap is_connected s ∙ live, i)

  on_message_complete :
      (s : Session) (now : ℕ) (rejected answered : Option ℕ) (q : Progress) (c' : TcpConnection)
      → parse_request s.context s.conn.input_buffer now ≡ ok q
      → q.correct ≡ true
      → q.context.state ≡ all_ok
      → process_request http_callback
          (record s.conn { input_buffer = q.buffer })
          q.context.request
          answered
        ≡ ok c'
      → on_message http_callback s now rejected answered
        ≡ ok (record { conn = c'; context = reset q.context })
  unfolding on_message reject_bad
  on_message_complete s now rejected answered q c' parsed correct complete run =
      let c : TcpConnection = record s.conn { input_buffer = q.buffer } in
      rw parsed (
        ap
          (λ b. reject_bad http_callback b c rejected >>= λ d.
            answer http_callback q.context d answered)
          correct
        ∙ (answer_complete q.context c answered (is_all_ok_lem q.context complete)
            ∙ ap (λ x. x >>= λ d. ok (record { conn = d; context = reset q.context })) run))

  -- A GET request that has arrived in full on an open connection with a fresh context, with further
  -- bytes behind it, is answered: the response that the callback builds for exactly this request is
  -- appended to the connection's stream, the further bytes stay in the input buffer, the context is
  -- fresh again, and the connection stays open unless the response closes it. The text of the response
  -- is to fit into a new buffer and behind the writer index of the output buffer.
  pub on_message-get :
      (s : Session) (now : ℕ) (rejected answered : Option ℕ)
      → (path : Bytes) (query : Option Bytes) (v : Version) (hs : Headers) (rest : Bytes)
      → v ≢ unknown
      → IsTarget path query
      → IsHeaders hs
      → s.context ≡ empty_context
      → IsFlowing s.conn
      → is_connected s.conn.state ≡ true
      → IsValid s.conn.input_buffer
      → contents s.conn.input_buffer ≡ request_text path query v hs rest
      → (let text = joined (pieces (respond http_callback (get_request now path query v hs))) in
          (length text ≤ initial_size)
          × (taken answered ≤ length text)
          × (s.conn.output_buffer.writer_index + length text ≤ length s.conn.output_buffer.buffer))
      → (s' : Session) × (on_message http_callback s now rejected answered ≡ ok s')
        × Answered s.conn (get_request now path query v hs) s'.conn
        × (contents s'.conn.input_buffer ≡ rest)
        × (s'.context ≡ empty_context)
  on_message-get s now rejected answered path query v hs rest h t hd fresh f live valid e fit =
      let (q, parsed, correct, complete, req, remaining, _) =
        parse_request-request_text s.conn.input_buffer now path query v hs rest h t hd valid e in
      let r = get_request now path query v hs in
      let c : TcpConnection = record s.conn { input_buffer = q.buffer } in
      let flowing : IsFlowing c = record {
        output = f.output;
        watched = f.watched;
        pending = f.pending;
        flushed = f.flushed;
        closing = f.closing;
      } in
      let (c', run, a, input) = process_request-Answered c r answered flowing live fit in
      (
        record { conn = c'; context = reset q.context },
        on_message_complete s now rejected answered q c'
            (ap (λ x. parse_request x s.conn.input_buffer now) fresh ∙ parsed) correct complete
            (ap (λ x. process_request http_callback c x answered) req ∙ run),
        a,
        ap contents input ∙ remaining,
        reset-eq_empty q.context (ap (λ x. x.bodys) req),
      )
