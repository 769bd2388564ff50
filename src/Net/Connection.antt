-- ===== src/Net/Connection.antt =====
-- include/network/TcpConnection.hpp and src/TcpConnection.cpp: a connection, in its loop's thread.
-- What the kernel answers to a `write` is an argument: the number of bytes that it took, or `none`
-- for an error. `sent` collects the bytes that the kernel took, oldest first.
pub mod Stream
pub mod Sending
pub mod Life
use hydrogen_web.Common.{
  ℕ, zero, suc, ◌+◌, ◌-◌, Bool, true, false, ◌&&◌, ◌||◌, not, Option, none, some, List, [], ◌∷◌,
  ◌++◌, ◌==◌, ltb, leb, if◌then◌else◌, take, drop, length,
}
use hydrogen_web.Common.Bytes.{Bytes}
use hydrogen_web.Common.Fault.{Result, ok, err, assertion, guard, ◌>>=◌, ◌>>◌}
use hydrogen_web.HyBuffer.{
  HyBuffer, empty_buffer, readable_bytes, readable, clear, clear_all, append, read_fd,
}
use hydrogen_web.Net.Channel.{
  Events, empty_event, is_writing, enable_reading, enable_writing, disable_writing, disable_all,
}

pub data State : Type 0 where
  connecting connected disconnected disconnecting : State

-- `write_closed` says that `shutdownWrite` has been called on the socket, `registered` that the
-- channel is known to the poller.
pub record TcpConnection : Type 0 where
  pub state : State
  pub events : Events
  pub registered : Bool
  pub input_buffer : HyBuffer
  pub output_buffer : HyBuffer
  pub sent : Bytes
  pub write_closed : Bool

-- The constructor.
unfoldable pub new_connection : TcpConnection
new_connection = record {
  state = connecting;
  events = empty_event;
  registered = false;
  input_buffer = empty_buffer;
  output_buffer = empty_buffer;
  sent = [];
  write_closed = false;
}

abbrev pub is_connecting : State → Bool
is_connecting connecting = true
is_connecting _ = false

abbrev pub is_connected : State → Bool
is_connected connected = true
is_connected _ = false

abbrev pub is_disconnecting : State → Bool
is_disconnecting disconnecting = true
is_disconnecting _ = false

-- `connected()`
unfoldable pub connected_now : TcpConnection → Bool
connected_now c = is_connected c.state

-- The connection callback follows.
unfoldable pub establish_connection : TcpConnection → Result TcpConnection
establish_connection c =
    guard (is_connecting c.state) assertion
    >> ok (record c { state = connected; events = enable_reading c.events; registered = true })

-- The connection callback runs before the channel leaves the poller.
unfoldable pub destroy_connection : TcpConnection → Result TcpConnection
destroy_connection c =
    guard (is_connected c.state || is_disconnecting c.state) assertion
    >> ok (record c { state = disconnected; events = disable_all c.events; registered = false })

-- `closeHandler`, up to the close callback.
unfoldable pub close_handler : TcpConnection → Result TcpConnection
close_handler c =
    guard (is_connected c.state || is_disconnecting c.state) assertion
    >> ok (record c { events = disable_all c.events })

-- What `connectionHandler` goes on to call.
pub data Handled : Type 0 where
  message closed : Handled

-- The branches behind `readFd`, by the number that it returns.
unfoldable pub handled : Option ℕ → TcpConnection → Result (Handled × TcpConnection)
handled none c = ok (message, c)
handled (some zero) c = close_handler c >>= λ c'. ok (closed, c')
handled (some (suc n)) c = ok (message, c)

-- `connectionHandler`. The number that `readFd` returns is converted to `size_t`: an error is a
-- large number, and is taken for data.
unfoldable pub connection_handler : TcpConnection → Option Bytes → Result (Handled × TcpConnection)
connection_handler c outcome =
    read_fd c.input_buffer outcome >>= λ r. handled r.1 (record c { input_buffer = r.0 })

unfoldable pub shutdown_in_loop_thread : TcpConnection → TcpConnection
shutdown_in_loop_thread c = if is_writing c.events then c else record c { write_closed = true }

-- The part of `writeHandler` behind a `write` that took `n` bytes.
unfoldable pub wrote : TcpConnection → ℕ → TcpConnection
wrote c n =
    let rest = clear c.output_buffer n in
    let c' : TcpConnection = record c { output_buffer = rest } in
    if readable_bytes rest == 0
    then (let c'' : TcpConnection = record c' { events = disable_writing c.events } in
        if is_disconnecting c.state then shutdown_in_loop_thread c'' else c'')
    else c'

-- `writeHandler`; a `write` that takes nothing is logged as an error.
unfoldable pub write_handler : TcpConnection → Option ℕ → Result TcpConnection
write_handler c outcome =
    if is_writing c.events
    then (readable c.output_buffer >>= λ bytes. elim outcome [
      | none ↦ ok c
      | some n ↦ if n == 0 then ok c else ok (wrote (record c { sent = c.sent ++ take n bytes }) n)
    ])
    else ok c

-- The bytes that the kernel took, when the code tries a `write`.
abbrev pub taken : Option ℕ → ℕ
taken none = 0
taken (some n) = n

-- `sendInLoopThread(data + n, left)` behind the attempt to write: the rest is buffered.
unfoldable pub buffer_rest : TcpConnection → Bytes → ℕ → Result TcpConnection
buffer_rest c bytes n =
    if ltb n (length bytes)
    then (append c.output_buffer (drop n bytes) >>= λ out. ok (record c {
      output_buffer = out;
      events = if is_writing c.events then c.events else enable_writing c.events;
    }))
    else ok c

unfoldable pub send_in_loop_thread : TcpConnection → Bytes → Option ℕ → Result TcpConnection
send_in_loop_thread c bytes outcome =
    if not (is_writing c.events) && (readable_bytes c.output_buffer == 0)
    then buffer_rest (record c { sent = c.sent ++ take (taken outcome) bytes }) bytes
        (taken outcome)
    else buffer_rest c bytes 0

-- `send`, in the loop's thread.
unfoldable pub send : TcpConnection → Bytes → Option ℕ → Result TcpConnection
send c bytes outcome = if is_connected c.state then send_in_loop_thread c bytes outcome else ok c

-- `shutdown`, in the loop's thread.
unfoldable pub shutdown : TcpConnection → TcpConnection
shutdown c =
    if is_connected c.state then shutdown_in_loop_thread (record c { state = disconnecting }) else c
