-- ===== src/Net/Connection/Sending.antt =====
-- TcpConnection: `sendInLoopThread` appends to the byte stream.
use native.Mathlib.Decide.{dec_lt}
use hydrogen_web.Common.{
  ℕ, ◌+◌, ◌-◌, ◌≤◌, ◌<◌, ◌≡◌, ◌≢◌, refl, sym, ap, ap₂, subst, ◌^◌, ltb, drop-length_le, ◌∙◌, ◌⊎◌,
  inl, inr, true, false, Option, [], ◌∷◌, ◌++◌, ◌==◌, append_assoc, append-nil, arith, length, take,
  drop, length-append, length-drop, take-append-drop, Bool-cases, if◌then◌else◌,
}
use hydrogen_web.Common.Bytes.{Bytes}
use hydrogen_web.Common.Fault.{ok, ok-injective, >>=-eq-ok}
use hydrogen_web.HyBuffer.{HyBuffer, readable_bytes, append}
use hydrogen_web.HyBuffer.Window.{IsValid, contents}
use hydrogen_web.HyBuffer.Append.{append-Fits, append-ok}
use hydrogen_web.Net.Channel.{is_writing, enable_writing}
use hydrogen_web.Net.Connection.{
  TcpConnection, is_connected, taken, buffer_rest, send_in_loop_thread,
}
use hydrogen_web.Net.Connection.Stream.{
  stream, open_closed, IsFlowing, eq_nil_of_length, nil-readable_bytes,
}

-- What `buffer_rest` leaves when `n` of the bytes have been taken.
record Buffered (c : TcpConnection) (bytes : Bytes) (n : ℕ) (c' : TcpConnection) : Type 0 where
  returned : buffer_rest c bytes n ≡ ok c'
  held : contents c'.output_buffer ≡ contents c.output_buffer ++ drop n bytes
  output : IsValid c'.output_buffer
  sent_same : c'.sent ≡ c.sent
  state_same : c'.state ≡ c.state
  input_same : c'.input_buffer ≡ c.input_buffer
  closed_same : c'.write_closed ≡ c.write_closed
  watching :
      ((n < length bytes) × (c'.events.write_event ≡ true))
      ⊎ ((length bytes ≤ n) × (c'.events.write_event ≡ c.events.write_event))

-- The buffer takes the bytes behind those that it holds.
abbrev Takes : HyBuffer → Bytes → Type 0
Takes b bytes =
    (b' : HyBuffer) × (append b bytes ≡ ok b') × (contents b' ≡ contents b ++ bytes) × IsValid b'

-- It does where there is room behind the writer index, and where the rest of a send has come back.
room-Takes :
    (b : HyBuffer) (bytes : Bytes) (n : ℕ)
    → IsValid b
    → b.writer_index + length bytes ≤ length b.buffer
    → Takes b (drop n bytes)
room-Takes b bytes n v room =
    append-Fits (drop n bytes) v (omega (arith, length-drop n bytes))
      (inl (omega (arith, length-drop n bytes)))

returned-Takes :
    (c : TcpConnection) (bytes : Bytes) (n : ℕ) {c' : TcpConnection}
    → IsValid c.output_buffer
    → c.output_buffer.writer_index + length bytes < 2 ^ 63
    → buffer_rest c bytes n ≡ ok c'
    → n < length bytes
    → Takes c.output_buffer (drop n bytes)
unfolding buffer_rest
returned-Takes c bytes n v small run l =
    let e : ltb n (length bytes) ≡ true = ground arith in
    let (out, a, _) = >>=-eq-ok (append c.output_buffer (drop n bytes)) _ (rw (e) at run) in
    let (h, w) = append-ok (drop n bytes) v (omega (arith, length-drop n bytes)) a in (out, a, h, w)

buffer_rest-Buffered :
    (c : TcpConnection) (bytes : Bytes) (n : ℕ)
    → IsValid c.output_buffer
    → (n < length bytes → Takes c.output_buffer (drop n bytes))
    → (c' : TcpConnection) × Buffered c bytes n c'
unfolding buffer_rest
buffer_rest-Buffered c bytes n v room = elim (dec_lt n (length bytes)) [
  | yes l ↦
      let (out, run, held, valid) = room l in
      (
        record c {
          output_buffer = out;
          events = if is_writing c.events then c.events else enable_writing c.events;
        },
        record {
          returned = ground (arith, run);
          held = held;
          output = valid;
          sent_same = refl;
          state_same = refl;
          input_same = refl;
          closed_same = refl;
          watching = inl (l, ground arith);
        },
      )
  | no l ↦ (
    c,
    record {
      returned = ground arith;
      held = sym (
          ap (λ t. contents c.output_buffer ++ t) (drop-length_le n bytes (omega arith))
          ∙ append-nil _);
      output = v;
      sent_same = refl;
      state_same = refl;
      input_same = refl;
      closed_same = refl;
      watching = inr (omega arith, refl);
    },
  )
]

pos_of_ne_nil : (xs : Bytes) → xs ≢ [] → 0 < length xs
pos_of_ne_nil [] h = absurd (h refl)
pos_of_ne_nil (x ∷ xs) h = omega arith

Buffered-IsFlowing :
    {c c' : TcpConnection} {bytes : Bytes} {n : ℕ}
    → IsFlowing c
    → is_connected c.state ≡ true
    → Buffered c bytes n c'
    → IsFlowing c'
Buffered-IsFlowing {c} {c'} {bytes} {n} f live b = record {
  output = b.output;
  watched = λ e. eq_nil_of_length (contents c'.output_buffer) (empty e);
  pending = λ e z. held_pos e (ap length z);
  flushed = λ e. open_closed c.state live (f.closing (sym b.closed_same ∙ e));
  closing = λ e. open_closed c.state live (f.closing (sym b.closed_same ∙ e));
}
  where
    size :
        length (contents c'.output_buffer) ≡ length (contents c.output_buffer) + (length bytes - n)
    size = omega (
      arith,
      ap length b.held,
      length-append (contents c.output_buffer) (drop n bytes),
      length-drop n bytes,
    )

    empty : c'.events.write_event ≡ false → length (contents c'.output_buffer) ≡ 0
    empty e = elim b.watching [
      | inl (_, t) ↦ cc
      | inr (l, t) ↦ omega (arith, size, ap length (f.watched (sym t ∙ e)))
    ]

    held_pos : c'.events.write_event ≡ true → length (contents c'.output_buffer) ≡ 0 → ⊥
    held_pos e z = elim b.watching [
      | inl (l, t) ↦ omega (arith, size)
      | inr (l, t) ↦
          omega (arith, size, pos_of_ne_nil (contents c.output_buffer) (f.pending (sym t ∙ e)))
    ]

send_buffers :
    (c : TcpConnection) (bytes : Bytes) (outcome : Option ℕ)
    → c.events.write_event ≡ true
    → send_in_loop_thread c bytes outcome ≡ buffer_rest c bytes 0
unfolding send_in_loop_thread
send_buffers c bytes outcome w = ground arith

send_writes :
    (c : TcpConnection) (bytes : Bytes) (outcome : Option ℕ)
    → c.events.write_event ≡ false
    → (readable_bytes c.output_buffer == 0) ≡ true
    → send_in_loop_thread c bytes outcome
      ≡ buffer_rest (record c { sent = c.sent ++ take (taken outcome) bytes }) bytes (taken outcome)
unfolding send_in_loop_thread
send_writes c bytes outcome w e = ground arith

-- `sendInLoopThread`, where the rest of the bytes goes into the buffer.
send-Buffers :
    (c : TcpConnection) (bytes : Bytes) (outcome : Option ℕ)
    → IsFlowing c
    → taken outcome ≤ length bytes
    → is_connected c.state ≡ true
    → ((s : Bytes) (n : ℕ)
        → send_in_loop_thread c bytes outcome ≡ buffer_rest (record c { sent = s }) bytes n
        → n < length bytes
        → Takes c.output_buffer (drop n bytes))
    → (c' : TcpConnection) × (send_in_loop_thread c bytes outcome ≡ ok c')
      × (stream c' ≡ stream c ++ bytes)
      × IsFlowing c'
      × (c'.state ≡ c.state)
      × (c'.input_buffer ≡ c.input_buffer)
send-Buffers c bytes outcome f h live room = elim (Bool-cases c.events.write_event) [
  | inl w ↦
      let (c', b) =
        buffer_rest-Buffered c bytes 0 f.output (room c.sent 0 (send_buffers c bytes outcome w)) in
      (
        c',
        send_buffers c bytes outcome w ∙ b.returned,
        ap₂ ◌++◌ b.sent_same b.held ∙ sym (append_assoc c.sent (contents c.output_buffer) bytes),
        Buffered-IsFlowing f live b,
        b.state_same,
        b.input_same,
      )
  | inr w ↦
      let n = taken outcome in
      let c₁ : TcpConnection = record c { sent = c.sent ++ take n bytes } in
      let flowing : IsFlowing c₁ = record {
        output = f.output;
        watched = f.watched;
        pending = f.pending;
        flushed = f.flushed;
        closing = f.closing;
      } in
      let writes = send_writes c bytes outcome w (nil-readable_bytes f.output (f.watched w)) in
      let (c', b) = buffer_rest-Buffered c₁ bytes n f.output (room c₁.sent n writes) in
      (
        c',
        writes ∙ b.returned,
        ap₂ ◌++◌ b.sent_same b.held
            ∙ (ap (λ t. (c.sent ++ take n bytes) ++ (t ++ drop n bytes)) (f.watched w)
                ∙ (append_assoc c.sent (take n bytes) (drop n bytes)
                    ∙ (ap (λ t. c.sent ++ t) (take-append-drop n bytes)
                        ∙ ap (λ t. t ++ bytes)
                            (sym (append-nil c.sent)
                              ∙ ap (λ t. c.sent ++ t) (sym (f.watched w)))))),
        Buffered-IsFlowing {c = c₁} flowing live b,
        b.state_same,
        b.input_same,
      )
]

-- `sendInLoopThread` of bytes that fit: whatever the kernel takes of them at once, they are appended
-- to the stream, the invariant holds again, and the state and the input buffer stay.
pub send_in_loop_thread-stream :
    (c : TcpConnection) (bytes : Bytes) (outcome : Option ℕ)
    → IsFlowing c
    → taken outcome ≤ length bytes
    → is_connected c.state ≡ true
    → c.output_buffer.writer_index + length bytes ≤ length c.output_buffer.buffer
    → (c' : TcpConnection) × (send_in_loop_thread c bytes outcome ≡ ok c')
      × (stream c' ≡ stream c ++ bytes)
      × IsFlowing c'
      × (c'.state ≡ c.state)
      × (c'.input_buffer ≡ c.input_buffer)
send_in_loop_thread-stream c bytes outcome f h live room =
    send-Buffers c bytes outcome f h live
      (λ s n _ _. room-Takes c.output_buffer bytes n f.output room)

-- `sendInLoopThread` that has come back, of whatever bytes, has appended them to the stream, and the
-- invariant holds again.
pub send_in_loop_thread-ok :
    (c : TcpConnection) (bytes : Bytes) (outcome : Option ℕ) {c' : TcpConnection}
    → IsFlowing c
    → taken outcome ≤ length bytes
    → is_connected c.state ≡ true
    → c.output_buffer.writer_index + length bytes < 2 ^ 63
    → send_in_loop_thread c bytes outcome ≡ ok c'
    → (stream c' ≡ stream c ++ bytes) × IsFlowing c'
send_in_loop_thread-ok c bytes outcome {c'} f h live small run =
    let (d, r, s, g, _, _) =
      send-Buffers c bytes outcome f h live (λ s n e l.
        returned-Takes (record c { sent = s }) bytes n f.output small (sym e ∙ run) l) in
    let same : d ≡ c' = ok-injective (sym r ∙ run) in
    subst (λ x. (stream x ≡ stream c ++ bytes) × IsFlowing x) same (s, g)
