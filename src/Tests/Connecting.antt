-- ===== src/Tests/Connecting.antt =====
-- Tests of src/TcpServer.cpp, src/EventLoopThreadPool.cpp, src/socketDetail.cpp and src/Acceptor.cpp.
use hydrogen_web.Common.{ℕ, ◌≡◌, refl, arith, true, false, none, some, List, [], ◌∷◌, length}
use hydrogen_web.Common.Bytes.{codes}
use hydrogen_web.Common.Decimal.{decimal, digits_onto}
use hydrogen_web.Common.Table.{find, assign}
use hydrogen_web.Common.Int.{ℤ, pos, negsuc}
use hydrogen_web.Common.Fault.{ok}
use hydrogen_web.Net.Connection.{connected, disconnected, new_connection, establish_connection}
use hydrogen_web.Net.Channel.{empty_event, enable_reading}
use hydrogen_web.Net.ThreadPool.{EventLoopThreadPool, next_loop}
use hydrogen_web.Net.ThreadPool.Rounds.{next_loops, next_loops-round}
use hydrogen_web.Net.TcpServer.{
  TcpServer, establish, conn_name, new_connection_handler, close_connection, perform,
}
use hydrogen_web.Net.TcpServer.Lives.{
  World, total, starts_of, ends_of, handling, processing, Reach, here, next, polls, accepts, takes,
  runs, new_world,
}
use hydrogen_web.Net.TcpServer.Safety.{
  Reach-close_connection, Reach-perform, Reach-new_connection, Reach-connections,
}
use hydrogen_web.Net.TcpServer.Pending.{Reach-pending}
use hydrogen_web.Net.Sockets.Calls.{Kernel, AddrInfo, Ledger, without, opens}
use hydrogen_web.Net.Sockets.{
  open_client_fd, open_listen_fd, incoming_handler, try_addresses, try_bind, set_reuse, checked,
  close_fd, listen_on, checked_or_abort,
}
use hydrogen_web.Net.Sockets.Descriptors.{
  open_client_fd-opened, open_listen_fd-opened, incoming_handler-opened,
}

abbrev three_loops : EventLoopThreadPool ℕ
three_loops = record {
  main_loop = 0;
  num_threads = 3;
  next_index = 1;
  started = true;
  loops = 4 ∷ 5 ∷ 6 ∷ [];
}

next_loops-round_example : next_loops 3 three_loops ≡ ok (5 ∷ 6 ∷ 4 ∷ [], three_loops)
next_loops-round_example = next_loops-round three_loops (4 ∷ []) 5 (6 ∷ []) refl refl

-- A server `s` in the loop 0.
abbrev first : World ℕ
first = new_world (codes "s") 0 2

abbrev accepted : TcpServer ℕ
accepted = record first.server {
  new_conn_id = 1;
  connections = (codes "s#0", 0) ∷ [];
  made = record { name = codes "s#0"; loop = 0; body = new_connection } ∷ [];
  posted = (0, establish 0) ∷ [];
}

accepted_lem : new_connection_handler first.server ≡ ok accepted
unfolding new_connection_handler next_loop assign decimal digits_onto
accepted_lem = refl

run_to_accepted : Reach first (record { server = accepted; phase = handling [] })
run_to_accepted =
    next (next here (polls first [] refl tt))
      (accepts (record first { phase = handling [] }) [] accepted refl accepted_lem)

run_to_taken : Reach first (record {
  server = record accepted { posted = [] };
  phase = processing ((0, establish 0) ∷ []);
})
run_to_taken = next run_to_accepted (takes (record { server = accepted; phase = handling [] }) refl)

Reach-new_connection_example :
    (find (conn_name (codes "s") 1) accepted.connections ≡ none)
    × (s : TcpServer ℕ) × (new_connection_handler accepted ≡ ok s)
    × (find (conn_name (codes "s") 1) s.connections ≡ some 1)
Reach-new_connection_example = Reach-new_connection (codes "s") 0 2 run_to_accepted (omega arith)

Reach-perform_example :
    (s : TcpServer ℕ) × (perform (record accepted { posted = [] }) (establish 0) ≡ ok s)
Reach-perform_example = Reach-perform (codes "s") 0 2 0 (establish 0) [] run_to_taken refl

abbrev established : TcpServer ℕ
established = record accepted {
  made =
      record {
        name = codes "s#0";
        loop = 0;
        body = record new_connection {
          state = connected;
          events = enable_reading empty_event;
          registered = true;
        };
      }
      ∷ [];
  posted = [];
}

run_to_established : Reach first (record { server = established; phase = processing [] })
unfolding perform establish_connection new_connection
run_to_established = next run_to_taken (
    runs
      (record {
        server = record accepted { posted = [] };
        phase = processing ((0, establish 0) ∷ []);
      })
      (0, establish 0) [] established refl refl)

run_to_turn : Reach first (record { server = established; phase = handling (0 ∷ []) })
run_to_turn =
    next run_to_established (
      polls (record { server = established; phase = processing [] }) (0 ∷ []) refl (refl, refl, tt))

Reach-close_connection_example : (s : TcpServer ℕ) × (close_connection established 0 ≡ ok s)
Reach-close_connection_example = Reach-close_connection (codes "s") 0 2 0 [] run_to_turn refl

Reach-pending_example :
    (total {Loop = ℕ} (starts_of 0) ((0, establish 0) ∷ []) ≡ 1)
    × (total {Loop = ℕ} (ends_of 0) ((0, establish 0) ∷ []) ≡ 0)
unfolding new_connection
Reach-pending_example =
    Reach-pending (codes "s") 0 2 0 (record { name = codes "s#0"; loop = 0; body = new_connection })
      run_to_taken refl

Reach-connections_example :
    (find (conn_name (codes "s") 0) established.connections ≡ some 0)
    × (true ≡ false → connected ≡ disconnected)
Reach-connections_example =
    Reach-connections (codes "s") 0 2 0
      (record {
        name = codes "s#0";
        loop = 0;
        body = record new_connection {
          state = connected;
          events = enable_reading empty_event;
          registered = true;
        };
      })
      run_to_established refl refl

-- A kernel whose state is the list of the open descriptors. A new one has the number of those before it,
-- an address is the answer to `connect` and to `bind`.
abbrev opening : List ℕ → ℤ × List ℕ
opening ds = (pos (length ds), length ds ∷ ds)

abbrev address : ℤ → AddrInfo ℤ
address a = record { family = 2; socktype = 1; protocol = 0; addr = a }

abbrev kernel : Kernel (List ℕ) ℤ
kernel = record {
  socket = λ d t p ds. opening ds;
  connect = λ fd a ds. (a, ds);
  bind = λ fd a ds. (a, ds);
  listen = λ fd n ds. (pos 0, ds);
  accept = λ fd ds. opening ds;
  setsockopt = λ fd b ds. (pos 0, ds);
  close = λ fd ds. (pos 0, without fd ds);
  shutdown = λ fd ds. (pos 0, ds);
  getaddrinfo = λ h p ds. ((pos 0, address (negsuc 0) ∷ address (pos 0) ∷ []), ds);
  freeaddrinfo = λ ds. ds;
  log = λ m ds. ds;
}

abbrev kernel_ledger : Ledger kernel
kernel_ledger = record {
  opened = λ ds. ds;
  socket_opens = λ d t p ds. refl;
  accept_opens = λ fd ds. refl;
  close_closes = λ fd ds. refl;
  connect_keeps = λ fd a ds. refl;
  bind_keeps = λ fd a ds. refl;
  listen_keeps = λ fd n ds. refl;
  setsockopt_keeps = λ fd b ds. refl;
  getaddrinfo_keeps = λ h p ds. refl;
  freeaddrinfo_keeps = λ ds. refl;
  log_keeps = λ m ds. refl;
}

-- The first address refuses, and its socket is closed.
open_client_fd-opened_example :
    (open_client_fd kernel (codes "localhost") (codes "80") (2 ∷ 1 ∷ 0 ∷ [])).1
    ≡ opens
        (2 ∷ 1 ∷ 0 ∷ [])
        (open_client_fd kernel (codes "localhost") (codes "80") (2 ∷ 1 ∷ 0 ∷ [])).0
open_client_fd-opened_example =
    open_client_fd-opened kernel kernel_ledger (codes "localhost") (codes "80") (2 ∷ 1 ∷ 0 ∷ [])

open_listen_fd-opened_example : 3 ∷ 2 ∷ 1 ∷ 0 ∷ [] ≡ opens (2 ∷ 1 ∷ 0 ∷ []) (pos 3)
unfolding open_listen_fd try_addresses try_bind set_reuse checked close_fd listen_on
    checked_or_abort
open_listen_fd-opened_example =
    open_listen_fd-opened kernel kernel_ledger (codes "80") (2 ∷ 1 ∷ 0 ∷ [])
      (pos 3, 3 ∷ 2 ∷ 1 ∷ 0 ∷ []) refl

incoming_handler-opened_example :
    (incoming_handler kernel 0 none (0 ∷ []) ≡ 0 ∷ [])
    × (incoming_handler kernel 0 (some (λ s ds. ds)) (0 ∷ []) ≡ 1 ∷ 0 ∷ [])
incoming_handler-opened_example =
    incoming_handler-opened kernel kernel_ledger 0 (λ s ds. ds) (0 ∷ []) (λ s ds. refl)
