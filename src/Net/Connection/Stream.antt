-- ===== src/Net/Connection/Stream.antt =====
-- TcpConnection: the byte stream. What has been handed to `send` is what the kernel has taken
-- followed by what the output buffer holds.
use hydrogen_web.Common.{
  ℕ, zero, suc, ◌≤◌, ◌≡◌, ◌≢◌, refl, ap, ◌∙◌, inl, inr, Bool, true, false, Option, none, some, [],
  ◌∷◌, ◌++◌, ◌==◌, append_assoc, arith, length, take, drop, take-append-drop, Bool-cases,
}
use hydrogen_web.Common.Bytes.{Bytes}
use hydrogen_web.Common.Fault.{ok}
use hydrogen_web.HyBuffer.{HyBuffer, readable_bytes, clear}
use hydrogen_web.HyBuffer.Window.{IsValid, contents, length-contents}
use hydrogen_web.HyBuffer.Reading.{clear_lem, readable_lem}
use hydrogen_web.Net.Connection.{
  TcpConnection, State, connecting, connected, is_connected, shutdown_in_loop_thread, wrote,
  write_handler, taken,
}

-- The bytes of the connection, oldest first.
abbrev pub stream : TcpConnection → Bytes
stream c = c.sent ++ contents c.output_buffer

-- Before a shutdown.
abbrev pub is_open : State → Bool
is_open connecting = true
is_open connected = true
is_open _ = false

pub open_closed {ℓ} : {A : Type ℓ} (s : State) → is_connected s ≡ true → is_open s ≡ false → A
open_closed s h k = absurd (ground arith)

-- The output buffer is valid; it is empty exactly while the poller does not watch for room; and
-- once the socket is closed for writing nothing is left to write, and nothing more is accepted.
pub record IsFlowing (c : TcpConnection) : Type 0 where
  pub output : IsValid c.output_buffer
  pub watched : c.events.write_event ≡ false → contents c.output_buffer ≡ []
  pub pending : c.events.write_event ≡ true → contents c.output_buffer ≢ []
  pub flushed : c.write_closed ≡ true → c.events.write_event ≡ false
  pub closing : c.write_closed ≡ true → is_open c.state ≡ false

pub eq_nil_of_length : (xs : Bytes) → length xs ≡ 0 → xs ≡ []
eq_nil_of_length [] h = refl
eq_nil_of_length (x ∷ xs) h = absurd (omega arith)

-- The test of the code for an empty buffer.
readable_bytes-nil : {b : HyBuffer} → IsValid b → (readable_bytes b == 0) ≡ true → contents b ≡ []
readable_bytes-nil {b} v h = eq_nil_of_length (contents b) (ground (arith, length-contents v))

readable_bytes-ne_nil :
    {b : HyBuffer} → IsValid b → (readable_bytes b == 0) ≡ false → contents b ≢ []
readable_bytes-ne_nil {b} v h e = ground (arith, length-contents v, ap length e)

pub nil-readable_bytes :
    {b : HyBuffer} → IsValid b → contents b ≡ [] → (readable_bytes b == 0) ≡ true
nil-readable_bytes {b} v e = ground (arith, length-contents v, ap length e)

ne_nil-readable_bytes :
    {b : HyBuffer} → IsValid b → contents b ≢ [] → (readable_bytes b == 0) ≡ false
ne_nil-readable_bytes {b} v e = elim (Bool-cases (readable_bytes b == 0)) [
  | inl h ↦ absurd (e (readable_bytes-nil v h))
  | inr h ↦ h
]

wrote-IsFlowing :
    (c : TcpConnection) (n : ℕ)
    → IsFlowing c
    → c.events.write_event ≡ true
    → n ≤ length (contents c.output_buffer)
    → IsFlowing (wrote c n)
      × (contents (wrote c n).output_buffer ≡ drop n (contents c.output_buffer))
      × ((wrote c n).sent ≡ c.sent)
unfolding wrote shutdown_in_loop_thread
wrote-IsFlowing c n f w h =
    let k = clear_lem n f.output h in
    elim (Bool-cases (readable_bytes (clear c.output_buffer n) == 0)) [
      | inl e ↦ ground (arith, k, e, readable_bytes-nil k.1 e)
      | inr e ↦ ground (arith, k, e, readable_bytes-ne_nil k.1 e)
    ]

write_handler-unwatched :
    (c : TcpConnection) (outcome : Option ℕ)
    → c.events.write_event ≡ false
    → write_handler c outcome ≡ ok c
unfolding write_handler
write_handler-unwatched c outcome e = ground arith

write_handler-watched :
    (c : TcpConnection) (outcome : Option ℕ)
    → IsFlowing c
    → c.events.write_event ≡ true
    → taken outcome ≤ length (contents c.output_buffer)
    → (c' : TcpConnection) × (write_handler c outcome ≡ ok c')
      × (stream c' ≡ stream c)
      × IsFlowing c'
unfolding write_handler
write_handler-watched c none f e h = (c, ground (arith, readable_lem f.output), refl, f)
write_handler-watched c (some zero) f e h = (c, ground (arith, readable_lem f.output), refl, f)
write_handler-watched c (some (suc n)) f e h =
    let bytes = contents c.output_buffer in
    let c₁ : TcpConnection = record c { sent = c.sent ++ take (suc n) bytes } in
    let f₁ : IsFlowing c₁ = record {
      output = f.output;
      watched = f.watched;
      pending = f.pending;
      flushed = f.flushed;
      closing = f.closing;
    } in
    let w = wrote-IsFlowing c₁ (suc n) f₁ e h in
    (
      wrote c₁ (suc n),
      ground (arith, readable_lem f.output),
      ap (λ t. t ++ contents (wrote c₁ (suc n)).output_buffer) w.2
          ∙ (ap (λ t. (c.sent ++ take (suc n) bytes) ++ t) w.1
              ∙ (append_assoc c.sent (take (suc n) bytes) (drop (suc n) bytes)
                  ∙ ap (λ t. c.sent ++ t) (take-append-drop (suc n) bytes))),
      w.0,
    )

-- `writeHandler` moves bytes from the buffer to the kernel: it never faults, the stream stays what
-- it was, and the invariant holds again.
pub write_handler-stream :
    (c : TcpConnection) (outcome : Option ℕ)
    → IsFlowing c
    → taken outcome ≤ length (contents c.output_buffer)
    → (c' : TcpConnection) × (write_handler c outcome ≡ ok c')
      × (stream c' ≡ stream c)
      × IsFlowing c'
write_handler-stream c outcome f h = elim (Bool-cases c.events.write_event) [
  | inr e ↦ (c, write_handler-unwatched c outcome e, refl, f)
  | inl e ↦ write_handler-watched c outcome f e h
]
