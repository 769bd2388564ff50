-- ===== src/Net/TcpServer/Acts.antt =====
-- TcpConnection: what a step of a connection leaves of its state. It is never connecting again.
use hydrogen_web.Common.{
  ℕ, zero, suc, ◌≡◌, refl, ap, ◌∙◌, subst, true, false, ◌&&◌, not, Option, none, some,
  if◌then◌else◌, arith, ltb, length, ◌==◌, ◌++◌, drop, take, Bool-cases, inl, inr,
}
use hydrogen_web.Common.Bytes.{Bytes}
use hydrogen_web.Common.Fault.{ok, >>=-eq-ok, ok-injective}
use hydrogen_web.HyBuffer.{read_fd, readable, readable_bytes, append}
use hydrogen_web.Net.Channel.{is_writing}
use hydrogen_web.Net.Connection.{
  TcpConnection, disconnected, is_connecting, establish_connection, close_handler,
  connection_handler, handled, message, wrote, write_handler, shutdown_in_loop_thread, buffer_rest,
  send_in_loop_thread, send, shutdown, taken,
}
use hydrogen_web.Net.Connection.Life.{Step, establishes, receives, sends, consumes, writes, shuts}
use hydrogen_web.Net.TcpServer.Lives.{is_open}

-- The state is the same, or it has left `connected` for `disconnecting`.
abbrev pub Kept : TcpConnection → TcpConnection → Type 0
Kept b c =
    (c.registered ≡ b.registered)
    × (is_open b.state ≡ true → is_open c.state ≡ true)
    × (b.state ≡ disconnected → c.state ≡ disconnected)

same-Kept : (b c : TcpConnection) → c.registered ≡ b.registered → c.state ≡ b.state → Kept b c
same-Kept b c r s = (r, (λ h. ap is_open s ∙ h), (λ h. s ∙ h))

buffer_rest-Kept :
    (b c : TcpConnection) (bytes : Bytes) (n : ℕ)
    → Kept b c
    → {d : TcpConnection} → buffer_rest c bytes n ≡ ok d
    → Kept b d
unfolding buffer_rest
buffer_rest-Kept b c bytes n k h = elim (Bool-cases (ltb n (length bytes))) [
  | inl e ↦
      let g = rw e at h in
      let (out, _, f) = >>=-eq-ok (append c.output_buffer (drop n bytes)) _ g in
      subst (Kept b) (ok-injective f) k
  | inr e ↦ let g = rw e at h in subst (Kept b) (ok-injective g) k
]

send_in_loop_thread-Kept :
    (b : TcpConnection) (bytes : Bytes) (outcome : Option ℕ) {c : TcpConnection}
    → send_in_loop_thread b bytes outcome ≡ ok c
    → Kept b c
unfolding send_in_loop_thread
send_in_loop_thread-Kept b bytes outcome h =
    let t = not (is_writing b.events) && (readable_bytes b.output_buffer == 0) in
    elim (Bool-cases t) [
      | inl e ↦
          buffer_rest-Kept b (record b { sent = b.sent ++ take (taken outcome) bytes }) bytes
            (taken outcome)
            (same-Kept b (record b { sent = b.sent ++ take (taken outcome) bytes }) refl refl)
            (rw e at h)
      | inr e ↦ buffer_rest-Kept b b bytes 0 (same-Kept b b refl refl) (rw e at h)
    ]

wrote-same :
    (c : TcpConnection) (n : ℕ)
    → ((wrote c n).registered ≡ c.registered) × ((wrote c n).state ≡ c.state)
unfolding wrote shutdown_in_loop_thread
wrote-same c n = ground arith

wrote_some :
    (b c : TcpConnection) (n : ℕ) (sent : Bytes)
    → (if n == 0 then ok b else ok (wrote (record b { sent = sent }) n)) ≡ ok c
    → Kept b c
wrote_some b c n sent h = elim (Bool-cases (n == 0)) [
  | inl e ↦ subst (Kept b) (ok-injective (rw e at h)) (same-Kept b b refl refl)
  | inr e ↦
      let (r, t) = wrote-same (record b { sent = sent }) n in
      subst (Kept b) (ok-injective (rw e at h))
        (same-Kept b (wrote (record b { sent = sent }) n) r t)
]

wrote_outcome :
    (b c : TcpConnection) (bytes : Bytes) (outcome : Option ℕ)
    → (elim outcome [
      | none ↦ ok b
      | some n ↦ if n == 0 then ok b else ok (wrote (record b { sent = b.sent ++ take n bytes }) n)
    ])
      ≡ ok c
    → Kept b c
wrote_outcome b c bytes none h = subst (Kept b) (ok-injective h) (same-Kept b b refl refl)
wrote_outcome b c bytes (some n) h = wrote_some b c n (b.sent ++ take n bytes) h

write_handler-Kept :
    (b : TcpConnection) (outcome : Option ℕ) {c : TcpConnection}
    → write_handler b outcome ≡ ok c
    → Kept b c
unfolding write_handler
write_handler-Kept b outcome {c} h = elim (Bool-cases (is_writing b.events)) [
  | inl e ↦
      let (bytes, _, u) = >>=-eq-ok (readable b.output_buffer) _ (rw e at h) in
      wrote_outcome b c bytes outcome u
  | inr e ↦ subst (Kept b) (ok-injective (rw e at h)) (same-Kept b b refl refl)
]

handled-Kept :
    (b : TcpConnection) (n : Option ℕ) (c : TcpConnection) {d : TcpConnection}
    → handled n c ≡ ok (message, d)
    → Kept b c
    → Kept b d
unfolding handled close_handler
handled-Kept b none c h k = ground arith
handled-Kept b (some zero) c h k = ground arith
handled-Kept b (some (suc n)) c h k = ground arith

pub Step-Kept :
    {b c : TcpConnection} {bytes : Bytes}
    → Step b bytes c
    → is_connecting b.state ≡ false
    → Kept b c
unfolding establish_connection connection_handler send shutdown shutdown_in_loop_thread
Step-Kept {b} {c} (establishes e) n = ground arith
Step-Kept {b} {c} (receives outcome e) n =
    let (r, _, u) = >>=-eq-ok (read_fd b.input_buffer outcome) _ e in
    handled-Kept b r.1 (record b { input_buffer = r.0 }) u
      (same-Kept b (record b { input_buffer = r.0 }) refl refl)
Step-Kept {b} {c} (sends bytes outcome live t room e) n =
    send_in_loop_thread-Kept b bytes outcome (rw live at e)
Step-Kept {b} {c} (writes outcome t e) n = write_handler-Kept b outcome e
Step-Kept {b} (consumes input) n = same-Kept b (record b { input_buffer = input }) refl refl
Step-Kept {b} shuts n = ground arith
