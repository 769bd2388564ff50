-- ===== src/Net/TcpServer.antt =====
-- include/network/TcpServer.hpp and src/TcpServer.cpp: the table of the connections of a server. The
-- sockets and addresses are left out: what the table does does not depend on them.
pub mod Names
pub mod Lives
pub mod Acts
pub mod Steps
pub mod Turns
pub mod Closing
pub mod Tasks
pub mod Sound
pub mod Safety
pub mod Pending
use hydrogen_web.Common.{
  ℕ, zero, suc, ◌+◌, ◌-◌, ◌^◌, Bool, true, false, not, Option, none, some, List, [], ◌∷◌, ◌++◌,
  ◌==◌, ltb, if◌then◌else◌, length, get_elem?, set,
}
use hydrogen_web.Common.Bytes.{Bytes}
use hydrogen_web.Common.Decimal.{decimal}
use hydrogen_web.Common.Table.{Table, assign, erase}
use hydrogen_web.Common.Fault.{
  Result, ok, err, assertion, out_of_bounds, overflow, guard, ◌>>=◌, ◌>>◌,
}
use hydrogen_web.Net.Connection.{
  TcpConnection, new_connection, establish_connection, destroy_connection, close_handler,
}
use hydrogen_web.Net.ThreadPool.{EventLoopThreadPool, next_loop}

-- A connection object, with the name and the loop that it is made with.
pub record Conn {ℓ} (Loop : Type ℓ) : Type ℓ where
  pub name : Bytes
  pub loop : Loop
  pub body : TcpConnection

-- The functors that the server gives to the loops: the number is that of a connection object.
pub data Task : Type 0 where
  establish destroy : ℕ → Task

-- `made` holds the connection objects in the order in which they were made, and `posted` what has been
-- given to `addToLoopThread`, oldest first. `listening` is the acceptor's.
pub record TcpServer {ℓ} (Loop : Type ℓ) : Type ℓ where
  pub server_name : Bytes
  pub started : Bool
  pub listening : Bool
  pub new_conn_id : ℕ
  pub connections : Table ℕ
  pub thread_pool : EventLoopThreadPool Loop
  pub made : List (Conn Loop)
  pub posted : List (Loop × Task)

-- `connName`
abbrev pub conn_name : Bytes → ℕ → Bytes
conn_name server id = server ++ b'#' ∷ decimal id

module _ {ℓ} {Loop : Type ℓ} where
  -- The constructor, with the text of the address.
  abbrev pub new_server : Bytes → EventLoopThreadPool Loop → TcpServer Loop
  new_server name pool = record {
    server_name = name;
    started = false;
    listening = false;
    new_conn_id = 0;
    connections = [];
    thread_pool = pool;
    made = [];
    posted = [];
  }

  -- `run`, in the loop's thread: the acceptor listens at once. The thread pool is not run.
  unfoldable pub run : TcpServer Loop → TcpServer Loop
  run s = record s { started = true; listening = true }

  -- `newConnectionHandler` behind `nextLoop`: the object is made and its pointer is in the table before
  -- the loop hears of it.
  abbrev pub add_connection : TcpServer Loop → Loop × EventLoopThreadPool Loop → TcpServer Loop
  add_connection s r =
      let name = conn_name s.server_name s.new_conn_id in
      record s {
        new_conn_id = s.new_conn_id + 1;
        connections = assign name (length s.made) s.connections;
        thread_pool = r.1;
        made = s.made ++ record { name = name; loop = r.0; body = new_connection } ∷ [];
        posted = s.posted ++ (r.0, establish (length s.made)) ∷ [];
      }

  -- `newConnectionHandler`; the counter is an `int`.
  unfoldable pub new_connection_handler : TcpServer Loop → Result (TcpServer Loop)
  new_connection_handler s =
      guard (ltb (s.new_conn_id + 1) (2 ^ 31)) overflow
      >> (next_loop s.thread_pool >>= λ r. ok (add_connection s r))

  -- The object of a number.
  abbrev pub object : Option (Conn Loop) → Result (Conn Loop)
  object none = err out_of_bounds
  object (some c) = ok c

  abbrev pub put : TcpServer Loop → ℕ → Conn Loop → TcpConnection → TcpServer Loop
  put s i c body = record s { made = set s.made i (record c { body = body }) }

  -- `removeConnectionInLoopThread`, behind the `erase`.
  abbrev pub removed : TcpServer Loop → ℕ → Conn Loop → ℕ × Table ℕ → Result (TcpServer Loop)
  removed s i c e =
      guard (e.0 == 1) assertion
      >> ok (record s { connections = e.1; posted = s.posted ++ (c.loop, destroy i) ∷ [] })

  -- `removeConnection`, in the server's loop.
  unfoldable pub remove_connection : TcpServer Loop → ℕ → Conn Loop → Result (TcpServer Loop)
  remove_connection s i c = removed s i c (erase c.name s.connections)

  -- `closeHandler` of a connection, with the close callback that the server has set.
  unfoldable pub close_connection : TcpServer Loop → ℕ → Result (TcpServer Loop)
  close_connection s i = object (get_elem? s.made i) >>= λ c.
      close_handler c.body >>= λ body. remove_connection (put s i c body) i c

  -- A functor that the server has given to a loop runs.
  unfoldable pub perform : TcpServer Loop → Task → Result (TcpServer Loop)
  perform s (establish i) = object (get_elem? s.made i) >>= λ c.
      establish_connection c.body >>= λ body. ok (put s i c body)
  perform s (destroy i) =
      object (get_elem? s.made i) >>= λ c. destroy_connection c.body >>= λ body. ok (put s i c body)
