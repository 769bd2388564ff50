-- ===== src/Net/Connection/Life.antt =====
-- TcpConnection: the life of a connection as steps of its loop's thread, up to its close.
use hydrogen_web.Common.{ℕ, ◌+◌, ◌≤◌, ◌<◌, ◌^◌, ◌≡◌, true, Option, [], ◌++◌, arith, length}
use hydrogen_web.Common.Bytes.{Bytes}
use hydrogen_web.Common.Fault.{ok}
use hydrogen_web.HyBuffer.{HyBuffer}
use hydrogen_web.HyBuffer.Window.{contents}
use hydrogen_web.Net.Connection.{
  TcpConnection, is_connected, message, establish_connection, connection_handler, write_handler,
  send, shutdown, shutdown_in_loop_thread, taken, send_in_loop_thread,
}
use hydrogen_web.Net.Connection.Stream.{IsFlowing, stream}

-- One step of the loop's thread that leaves the connection open, and the bytes that the program hands
-- over in it. A send that writes outside of the output buffer ends the run.
pub data Step (c : TcpConnection) : Bytes → TcpConnection → Type 0 where
  establishes : {c' : TcpConnection} → establish_connection c ≡ ok c' → Step c [] c'
  receives :
      (outcome : Option Bytes) {c' : TcpConnection}
      → connection_handler c outcome ≡ ok (message, c')
      → Step c [] c'
  sends :
      (bytes : Bytes) (outcome : Option ℕ) {c' : TcpConnection}
      → is_connected c.state ≡ true
      → taken outcome ≤ length bytes
      → c.output_buffer.writer_index + length bytes < 2 ^ 63
      → send c bytes outcome ≡ ok c'
      → Step c bytes c'
  -- The message callback takes bytes out of the input buffer, as it likes.
  consumes : (input : HyBuffer) → Step c [] (record c { input_buffer = input })
  writes :
      (outcome : Option ℕ) {c' : TcpConnection}
      → taken outcome ≤ length (contents c.output_buffer)
      → write_handler c outcome ≡ ok c'
      → Step c [] c'
  shuts : Step c [] (shutdown c)

-- Any number of steps, with all of the bytes handed over in them, oldest first.
pub data Reach (c : TcpConnection) : Bytes → TcpConnection → Type 0 where
  here : Reach c [] c
  next :
      {bytes more : Bytes} {d e : TcpConnection}
      → Reach c bytes d
      → Step d more e
      → Reach c (bytes ++ more) e

-- The stream grows by `bytes`, and the invariant holds.
abbrev Flows : TcpConnection → Bytes → TcpConnection → Type 0
Flows c bytes c' = (stream c' ≡ stream c ++ bytes) × IsFlowing c'

pub shutdown-stream :
    (c : TcpConnection) → IsFlowing c → (stream (shutdown c) ≡ stream c) × IsFlowing (shutdown c)
unfolding shutdown shutdown_in_loop_thread
shutdown-stream c f = ground arith

pub send_lem :
    (c : TcpConnection) (bytes : Bytes) (outcome : Option ℕ)
    → is_connected c.state ≡ true
    → send c bytes outcome ≡ send_in_loop_thread c bytes outcome
unfolding send
send_lem c bytes outcome e = ground arith
