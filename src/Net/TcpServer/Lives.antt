-- ===== src/Net/TcpServer/Lives.antt =====
-- TcpServer: the runs of a server and of its loop, and how far each connection object has come in them.
use hydrogen_web.Common.{
  ℕ, ◌+◌, ◌≤◌, ◌≡◌, Bool, true, false, ◌||◌, Option, none, some, List, [], ◌∷◌, ◌++◌, ◌==◌,
  if◌then◌else◌, get_elem?, length,
}
use hydrogen_web.Common.Bytes.{Bytes}
use hydrogen_web.Common.Table.{find, IsUnique}
use hydrogen_web.Common.Fault.{ok}
use hydrogen_web.Net.Connection.{
  TcpConnection, State, connecting, disconnected, is_connecting, is_connected, is_disconnecting,
}
use hydrogen_web.Net.Connection.Life
use hydrogen_web.Net.ThreadPool.{new_pool}
use hydrogen_web.Net.TcpServer.{
  Conn, Task, establish, destroy, TcpServer, new_server, conn_name, new_connection_handler, put,
  close_connection, perform,
}

-- Where the loop of the server stands: in the loop over the active channels, with the numbers of the
-- connections whose turn is yet to come, or in `processFunctors`, with what is left to run.
pub data Phase {ℓ} (Loop : Type ℓ) : Type ℓ where
  handling : List ℕ → Phase Loop
  processing : List (Loop × Task) → Phase Loop

pub record World {ℓ} (Loop : Type ℓ) : Type ℓ where
  pub server : TcpServer Loop
  pub phase : Phase Loop

-- How often a number is in a list.
abbrev pub occurrences : ℕ → List ℕ → ℕ
occurrences i [] = 0
occurrences i (j ∷ js) = (if j == i then 1 else 0) + occurrences i js

abbrev pub starts_of : ℕ → Task → ℕ
starts_of i (establish j) = if j == i then 1 else 0
starts_of i (destroy j) = 0

abbrev pub ends_of : ℕ → Task → ℕ
ends_of i (establish j) = 0
ends_of i (destroy j) = if j == i then 1 else 0

-- What there is of the connection with a number: its entry in the table, its object, the functors
-- about it that have not run, and its turns to come.
pub record View {ℓ} (Loop : Type ℓ) : Type ℓ where
  pub found : Option ℕ
  pub object : Option (Conn Loop)
  pub starts : ℕ
  pub ends : ℕ
  pub turns : ℕ

abbrev pub is_open : State → Bool
is_open s = is_connected s || is_disconnecting s

module _ {ℓ} {Loop : Type ℓ} where
  abbrev pub total : (Task → ℕ) → List (Loop × Task) → ℕ
  total f [] = 0
  total f (t ∷ ts) = f t.1 + total f ts

  -- The connections whose turn is yet to come, and the functors taken and not yet run.
  abbrev pub active : Phase Loop → List ℕ
  active (handling js) = js
  active (processing ts) = []

  abbrev pub pending : Phase Loop → List (Loop × Task)
  pending (handling js) = []
  pending (processing ts) = ts

  abbrev pub is_registered : Option (Conn Loop) → Bool
  is_registered none = false
  is_registered (some c) = c.body.registered

  -- What a poll returns: channels that the poller knows, each of them once.
  abbrev pub IsPolled : TcpServer Loop → List ℕ → Type 0
  IsPolled s [] = Unit {0}
  IsPolled s (j ∷ js) =
      (is_registered (get_elem? s.made j) ≡ true) × (occurrences j js ≡ 0) × IsPolled s js

  -- A server whose thread pool has no loops: each connection is in the loop of the server. A close ends the
  -- turn of its channel: a turn in which `handleEvent` calls the read callback behind the close callback,
  -- for POLLHUP with POLLPRI and without POLLIN, is left out. The assertions of the poller are, too.
  pub data Step : World Loop → World Loop → Type ℓ where
    accepts :
        (w : World Loop) (js : List ℕ) (s : TcpServer Loop)
        → w.phase ≡ handling js
        → new_connection_handler w.server ≡ ok s
        → Step w (record w { server = s })
    -- A message, what its callback takes out of the input buffer, a write, a send, a shutdown, by any
    -- callback or functor.
    acts :
        (w : World Loop) (j : ℕ) (c : Conn Loop) (bytes : Bytes) (body : TcpConnection)
        → get_elem? w.server.made j ≡ some c
        → is_connecting c.body.state ≡ false
        → Life.Step c.body bytes body
        → Step w (record w { server = put w.server j c body })
    passes :
        (w : World Loop) (j : ℕ) (js : List ℕ)
        → w.phase ≡ handling (j ∷ js)
        → Step w (record w { phase = handling js })
    closes :
        (w : World Loop) (j : ℕ) (js : List ℕ) (s : TcpServer Loop)
        → w.phase ≡ handling (j ∷ js)
        → close_connection w.server j ≡ ok s
        → Step w (record { server = s; phase = handling js })
    takes :
        (w : World Loop)
        → w.phase ≡ handling []
        → Step w (record {
          server = record w.server { posted = [] };
          phase = processing w.server.posted;
        })
    runs :
        (w : World Loop) (t : Loop × Task) (ts : List (Loop × Task)) (s : TcpServer Loop)
        → w.phase ≡ processing (t ∷ ts)
        → perform w.server t.1 ≡ ok s
        → Step w (record { server = s; phase = processing ts })
    polls :
        (w : World Loop) (js : List ℕ)
        → w.phase ≡ processing []
        → IsPolled w.server js
        → Step w (record w { phase = handling js })

  pub data Reach (v : World Loop) : World Loop → Type ℓ where
    here : Reach v v
    next : {w x : World Loop} → Reach v w → Step w x → Reach v x

  -- A new server, before its first poll.
  abbrev pub new_world : Bytes → Loop → ℕ → World Loop
  new_world name loop num_threads = record {
    server = new_server name (new_pool loop num_threads);
    phase = processing [];
  }

  abbrev pub tasks : World Loop → List (Loop × Task)
  tasks w = pending w.phase ++ w.server.posted

  abbrev pub view : ℕ → World Loop → View Loop
  view i w = record {
    found = find (conn_name w.server.server_name i) w.server.connections;
    object = get_elem? w.server.made i;
    starts = total (starts_of i) (tasks w);
    ends = total (ends_of i) (tasks w);
    turns = occurrences i (active w.phase);
  }

  -- How far the connection has come.
  pub data Fits (name : Bytes) (i : ℕ) (v : View Loop) : Type ℓ where
    unborn :
        v.object ≡ none → v.found ≡ none → v.starts ≡ 0 → v.ends ≡ 0 → v.turns ≡ 0 → Fits name i v
    fresh :
        (c : Conn Loop)
        → v.object ≡ some c
        → c.name ≡ name
        → (c.body.state ≡ connecting) × (c.body.registered ≡ false)
        → v.found ≡ some i
        → v.starts ≡ 1
        → v.ends ≡ 0
        → v.turns ≡ 0
        → Fits name i v
    live :
        (c : Conn Loop)
        → v.object ≡ some c
        → c.name ≡ name
        → is_open c.body.state ≡ true
        → v.found ≡ some i
        → v.starts ≡ 0
        → v.ends ≡ 0
        → v.turns ≤ 1
        → Fits name i v
    closed :
        (c : Conn Loop)
        → v.object ≡ some c
        → is_open c.body.state ≡ true
        → v.found ≡ none
        → v.starts ≡ 0
        → v.ends ≡ 1
        → v.turns ≡ 0
        → Fits name i v
    gone :
        (c : Conn Loop)
        → v.object ≡ some c
        → (c.body.state ≡ disconnected) × (c.body.registered ≡ false)
        → v.found ≡ none
        → v.starts ≡ 0
        → v.ends ≡ 0
        → v.turns ≡ 0
        → Fits name i v

  -- The invariant of a run.
  pub record IsSound (w : World Loop) : Type ℓ where
    pub size : length w.server.made ≡ w.server.new_conn_id
    pub unique : IsUnique w.server.connections
    pub alone : w.server.thread_pool.loops ≡ []
    pub still : (ts : List (Loop × Task)) → w.phase ≡ processing ts → w.server.posted ≡ []
    pub lives : (i : ℕ) → Fits (conn_name w.server.server_name i) i (view i w)
