-- ===== src/Net/Sockets.antt =====
-- include/network/socketDetail.hpp, src/socketDetail.cpp, include/network/Socket.hpp, src/Socket.cpp and
-- src/Acceptor.cpp: sockets. The calls of the kernel and of the resolver are parameters: each takes the
-- state that it finds and returns its value and the state that it leaves.
pub mod Calls
pub mod Descriptors
use hydrogen_web.Common.{
  ℕ, zero, suc, ◌+◌, Bool, true, false, not, Option, none, some, List, [], ◌∷◌, ◌++◌, ◌==◌,
  if◌then◌else◌,
}
use hydrogen_web.Common.Bytes.{Bytes, codes}
use hydrogen_web.Common.Int.{ℤ, pos, negsuc}
use hydrogen_web.Common.Fault.{Result, ok, err, assertion, aborted, guard, ◌>>=◌, ◌>>◌}
use hydrogen_web.Net.Sockets.Calls.{Kernel, AddrInfo}

abbrev pub is_negative : ℤ → Bool
is_negative (pos n) = false
is_negative (negsuc n) = true

-- What the loop over the addresses ends with: `close_failed` returns from inside of it.
pub data Tried : Type 0 where
  found : ℕ → Tried
  exhausted close_failed : Tried

-- `Socket(Socket&&)`: the descriptor of the new socket, and what is left in the one moved from.
unfoldable pub move_socket : ℤ → ℤ × ℤ
move_socket sockfd = (sockfd, negsuc 0)

module _ {ℓ₁ ℓ₂} {World : Type ℓ₁} {Addr : Type ℓ₂} (k : Kernel World Addr) where
  -- The wrappers: an error is logged, and returned.
  unfoldable pub checked : Bytes → ℤ × World → ℤ × World
  checked message r = if is_negative r.0 then (r.0, k.log message r.1) else r

  -- The wrappers that abort behind an error.
  unfoldable pub checked_or_abort : Bytes → ℤ × World → Result (ℤ × World)
  checked_or_abort message r = if is_negative r.0 then err aborted else ok r

  unfoldable pub open_socket : ℕ → ℕ → ℕ → World → ℤ × World
  open_socket domain type protocol w =
      checked (codes "Socket error") (k.socket domain type protocol w)

  unfoldable pub connect_to : ℕ → Addr → World → ℤ × World
  connect_to fd addr w = checked (codes "Connect error") (k.connect fd addr w)

  unfoldable pub bind_to : ℕ → Addr → World → Result (ℤ × World)
  bind_to fd addr w = checked_or_abort (codes "Bind error") (k.bind fd addr w)

  unfoldable pub listen_on : ℕ → ℕ → World → Result (ℤ × World)
  listen_on fd backlog w = checked_or_abort (codes "Listen error") (k.listen fd backlog w)

  unfoldable pub accept_from : ℕ → World → ℤ × World
  accept_from fd w = checked (codes "Accept error") (k.accept fd w)

  unfoldable pub set_reuse : ℕ → Bool → World → ℤ × World
  set_reuse fd reuse w = checked (codes "Setsockopt error") (k.setsockopt fd reuse w)

  unfoldable pub close_fd : ℕ → World → ℤ × World
  close_fd fd w = checked (codes "Close error") (k.close fd w)

  -- Without an error the socket is the descriptor.
  abbrev pub socket_of : ℤ × World → Result (ℕ × World)
  socket_of (pos fd, w) = ok (fd, w)
  socket_of (negsuc n, w) = err aborted

  -- `nonblockingSocket`, with the numbers of its arguments.
  unfoldable pub nonblocking_socket : ℕ → ℕ → ℕ → World → Result (ℕ × World)
  nonblocking_socket domain type protocol w = socket_of (open_socket domain type protocol w)

  -- `shutdownWrite`
  unfoldable pub shutdown_write : ℕ → World → World
  shutdown_write fd w = (checked (codes "socketDetail::shutdownWrite error") (k.shutdown fd w)).1

  -- The end of a turn of the loops, where the descriptor is not the one: the next address.
  abbrev pub close_and_go_on : (World → Tried × World) → ℤ × World → Tried × World
  close_and_go_on rest r = if is_negative r.0 then (close_failed, r.1) else rest r.1

  abbrev pub attempted : (World → Tried × World) → ℕ → Bool × World → Tried × World
  attempted rest fd (true, w) = (found fd, w)
  attempted rest fd (false, w) = close_and_go_on rest (close_fd fd w)

  abbrev pub socketed :
      (ℕ → Addr → World → Bool × World) → (World → Tried × World) → Addr → ℤ × World → Tried × World
  socketed attempt rest addr (negsuc n, w) = rest w
  socketed attempt rest addr (pos fd, w) = attempted rest fd (attempt fd addr w)

  -- The loop over the addresses: a socket is opened for each, and `attempt` says whether it is the one.
  unfoldable pub try_addresses :
      (ℕ → Addr → World → Bool × World) → List (AddrInfo Addr) → World → Tried × World
  try_addresses attempt [] w = (exhausted, w)
  try_addresses attempt (p ∷ ps) w =
      socketed attempt (try_addresses attempt ps) p.addr (k.socket p.family p.socktype p.protocol w)

  abbrev pub connected_by : ℤ × World → Bool × World
  connected_by (pos n, w) = (true, w)
  connected_by (negsuc zero, w) = (false, w)
  connected_by (negsuc (suc n), w) = (true, w)

  -- The test of `openClientFd`: `connect` does not return -1.
  unfoldable pub try_connect : ℕ → Addr → World → Bool × World
  try_connect fd addr w = connected_by (k.connect fd addr w)

  abbrev pub bound_by : ℤ × World → Bool × World
  bound_by (pos zero, w) = (true, w)
  bound_by (pos (suc n), w) = (false, w)
  bound_by (negsuc n, w) = (false, w)

  -- The test of `openListenFd`: `bind` returns 0, behind the option.
  unfoldable pub try_bind : ℕ → Addr → World → Bool × World
  try_bind fd addr w = bound_by (k.bind fd addr (set_reuse fd true w).1)

  -- Behind the loop of `openClientFd`.
  abbrev pub connected_result : Tried × World → ℤ × World
  connected_result (found fd, w) = (pos fd, k.freeaddrinfo w)
  connected_result (exhausted, w) = (negsuc 0, k.freeaddrinfo w)
  connected_result (close_failed, w) = (negsuc 0, w)

  abbrev pub resolved_client : (ℤ × List (AddrInfo Addr)) × World → ℤ × World
  resolved_client ((pos zero, ps), w) = connected_result (try_addresses try_connect ps w)
  resolved_client ((pos (suc n), ps), w) = (negsuc 1, w)
  resolved_client ((negsuc n, ps), w) = (negsuc 1, w)

  -- `openClientFd`; the message about the resolver goes to `cerr`.
  unfoldable pub open_client_fd : Bytes → Bytes → World → ℤ × World
  open_client_fd host port w = resolved_client (k.getaddrinfo (some host) port w)

  -- `OpenClientFd`
  unfoldable pub open_client : Bytes → Bytes → World → ℤ × World
  open_client host port w = checked (codes "OpenClientFd failed") (open_client_fd host port w)

  -- Behind the loop of `openListenFd`. `Listen` aborts by itself.
  abbrev pub listening_result : Tried × World → Result (ℤ × World)
  listening_result (found fd, w) = listen_on fd 1024 (k.freeaddrinfo w) >>= λ r.
      ok (if is_negative r.0 then (negsuc 0, (close_fd fd r.1).1) else (pos fd, r.1))
  listening_result (exhausted, w) = ok (negsuc 0, k.freeaddrinfo w)
  listening_result (close_failed, w) = ok (negsuc 0, w)

  abbrev pub resolved_server : (ℤ × List (AddrInfo Addr)) × World → Result (ℤ × World)
  resolved_server ((pos zero, ps), w) = listening_result (try_addresses try_bind ps w)
  resolved_server ((pos (suc n), ps), w) = ok (negsuc 1, w)
  resolved_server ((negsuc n, ps), w) = ok (negsuc 1, w)

  -- `openListenFd`
  unfoldable pub open_listen_fd : Bytes → World → Result (ℤ × World)
  open_listen_fd port w = resolved_server (k.getaddrinfo none port w)

  -- `OpenListenFd`
  unfoldable pub open_listen : Bytes → World → Result (ℤ × World)
  open_listen port w = open_listen_fd port w >>= λ r. ok (checked (codes "OpenListenFd failed") r)

  -- `~Socket`: the number of a socket that has been moved from is -1.
  unfoldable pub destroy_socket : ℤ → World → World
  destroy_socket (pos fd) w = (close_fd fd w).1
  destroy_socket (negsuc n) w = w

  -- What `incomingHandler` does with what `accept` returns. The new connection callback is given a socket
  -- that is moved out of the handler's own, which is destroyed behind the call.
  abbrev pub incoming : Option (ℤ → World → World) → ℤ × World → World
  incoming callback (negsuc n, w) = w
  incoming none (pos fd, w) = (close_fd fd w).1
  incoming (some f) (pos fd, w) = let m = move_socket (pos fd) in destroy_socket m.1 (f m.0 w)

  -- `incomingHandler`, in the loop's thread.
  unfoldable pub incoming_handler : ℕ → Option (ℤ → World → World) → World → World
  incoming_handler listen_fd callback w = incoming callback (accept_from listen_fd w)
