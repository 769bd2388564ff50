-- ===== src/Net/TcpServer/Safety.antt =====
-- TcpServer: no assertion fails in the runs of a server, and its table holds the open connections.
use hydrogen_web.Common.{
  ℕ, ◌+◌, ◌<◌, ◌≡◌, refl, ap, ◌∙◌, true, false, none, some, List, [], ◌∷◌, ◌++◌, ◌==◌, ==_iff,
  if◌then◌else◌, get_elem?, length, arith, ◌^◌,
}
use hydrogen_web.Common.Bytes.{Bytes, bytes_eq_self}
use hydrogen_web.Common.Table.{find, erase, find-assign, erase_count}
use hydrogen_web.Common.Fault.{ok}
use hydrogen_web.Net.Connection.{
  disconnected, is_connecting, close_handler, establish_connection, destroy_connection,
}
use hydrogen_web.Net.TcpServer.{
  Conn, Task, establish, destroy, TcpServer, conn_name, add_connection, new_connection_handler, put,
  remove_connection, close_connection, perform,
}
use hydrogen_web.Net.TcpServer.Lives.{
  handling, processing, World, starts_of, ends_of, total, pending, Reach, View, tasks, is_open,
  Fits, unborn, fresh, live, closed, gone,
}
use hydrogen_web.Net.TcpServer.Turns.{active_live}
use hydrogen_web.Net.TcpServer.Closing.{closing}
use hydrogen_web.Net.Channel.{enable_reading, disable_all}
use hydrogen_web.Net.Connection.{connected}
use hydrogen_web.Common.{lt→ltb}
use hydrogen_web.Net.TcpServer.Tasks.{starts_before}
use hydrogen_web.Net.TcpServer.Lives.{new_world}
use hydrogen_web.Net.TcpServer.Sound.{next_loop-alone, next_unborn, Reach-IsSound}

module _ {ℓ} {Loop : Type ℓ} where
  close_ok :
      (s : TcpServer Loop) (j : ℕ) (c : Conn Loop)
      → get_elem? s.made j ≡ some c
      → is_open c.body.state ≡ true
      → ((erase c.name s.connections).0 == 1) ≡ true
      → close_connection s j
        ≡ ok (closing s j c (record c.body { events = disable_all c.body.events }))
  unfolding close_connection remove_connection close_handler
  close_ok s j c o t e = rw (o, t, e) refl

  establish_ok :
      (s : TcpServer Loop) (j : ℕ) (c : Conn Loop)
      → get_elem? s.made j ≡ some c
      → is_connecting c.body.state ≡ true
      → (s' : TcpServer Loop) × (perform s (establish j) ≡ ok s')
  unfolding perform establish_connection
  establish_ok s j c o t = (
    put s j c (record c.body {
      state = connected;
      events = enable_reading c.body.events;
      registered = true;
    }),
    rw (o, t) refl,
  )

  destroy_ok :
      (s : TcpServer Loop) (j : ℕ) (c : Conn Loop)
      → get_elem? s.made j ≡ some c
      → is_open c.body.state ≡ true
      → (s' : TcpServer Loop) × (perform s (destroy j) ≡ ok s')
  unfolding perform destroy_connection
  destroy_ok s j c o t = (
    put s j c (record c.body {
      state = disconnected;
      events = disable_all c.body.events;
      registered = false;
    }),
    rw (o, t) refl,
  )

  accept_ok :
      (s : TcpServer Loop)
      → s.thread_pool.loops ≡ []
      → s.new_conn_id + 1 < 2 ^ 31
      → new_connection_handler s ≡ ok (add_connection s (s.thread_pool.main_loop, s.thread_pool))
  unfolding new_connection_handler
  accept_ok s a small =
      rw (lt→ltb (s.new_conn_id + 1) (2 ^ 31) small, next_loop-alone s.thread_pool a) refl

  -- In any run of a server and its loop, a connection whose channel has its turn can close: no assertion
  -- fails, neither on the state of the connection nor on the number of entries erased from the table.
  -- In the runs no send writes outside of its buffer, and a close is the last callback of its turn.
  pub Reach-close_connection :
      (name : Bytes) (loop : Loop) (n : ℕ) {w : World Loop} (j : ℕ) (js : List ℕ)
      → Reach (new_world name loop n) w
      → w.phase ≡ handling (j ∷ js)
      → (s : TcpServer Loop) × (close_connection w.server j ≡ ok s)
  Reach-close_connection name loop n {w} j js r p =
      let h = Reach-IsSound name loop n r in
      let (c, o, named, t, f, _, _, _) = active_live w j js p h in
      let one =
        erase_count c.name w.server.connections j
          (ap (λ k. find k w.server.connections) named ∙ f) in
      let e : ((erase c.name w.server.connections).0 == 1) ≡ true =
        (==_iff (erase c.name w.server.connections).0 1).1 one in
      (_, close_ok w.server j c o t e)

  -- In any run of a server and its loop, each functor about a connection that the loop has taken can run
  -- in its turn: the assertions of `establishConnection` and `destroyConnection` on the state of the
  -- connection hold. The assertions of the poller are not part of the statement.
  -- In the runs no send writes outside of its buffer, and a close is the last callback of its turn.
  pub Reach-perform :
      (name : Bytes) (loop : Loop) (n : ℕ) {w : World Loop} (l : Loop) (t : Task)
      (ts : List (Loop × Task))
      → Reach (new_world name loop n) w
      → w.phase ≡ processing ((l, t) ∷ ts)
      → (s : TcpServer Loop) × (perform w.server t ≡ ok s)
  Reach-perform name loop n {w} l (establish j) ts r p =
      let h = Reach-IsSound name loop n r in
      let (s₀, _) = starts_before w j (l, establish j) ts p in
      let e : (j == j) ≡ true = (==_iff j j).1 refl in
      let s₁ =
        s₀ ∙ ap (λ b. (if b then 1 else 0) + total (starts_of j) (ts ++ w.server.posted)) e in
      elim (h.lives j) [
        | unborn h₁ h₂ h₃ h₄ h₅ ↦ absurd (omega (arith, s₁))
        | fresh c h₁ h₂ h₃ h₄ h₅ h₆ h₇ ↦ establish_ok w.server j c h₁ (ap is_connecting h₃.0)
        | live c h₁ h₂ h₃ h₄ h₅ h₆ h₇ ↦ absurd (omega (arith, s₁))
        | closed c h₁ h₂ h₃ h₄ h₅ h₆ ↦ absurd (omega (arith, s₁))
        | gone c h₁ h₂ h₃ h₄ h₅ h₆ ↦ absurd (omega (arith, s₁))
      ]
  Reach-perform name loop n {w} l (destroy j) ts r p =
      let h = Reach-IsSound name loop n r in
      let (_, e₀) = starts_before w j (l, destroy j) ts p in
      let e : (j == j) ≡ true = (==_iff j j).1 refl in
      let e₁ = e₀ ∙ ap (λ b. (if b then 1 else 0) + total (ends_of j) (ts ++ w.server.posted)) e in
      elim (h.lives j) [
        | unborn h₁ h₂ h₃ h₄ h₅ ↦ absurd (omega (arith, e₁))
        | fresh c h₁ h₂ h₃ h₄ h₅ h₆ h₇ ↦ absurd (omega (arith, e₁))
        | live c h₁ h₂ h₃ h₄ h₅ h₆ h₇ ↦ absurd (omega (arith, e₁))
        | closed c h₁ h₂ h₃ h₄ h₅ h₆ ↦ destroy_ok w.server j c h₁ h₂
        | gone c h₁ h₂ h₃ h₄ h₅ h₆ ↦ absurd (omega (arith, e₁))
      ]

  -- In any run of a server and its loop, a connection can be accepted as long as the counter of
  -- connections is below the largest `int`, and its name is that of no connection in the table.
  -- In the runs no send writes outside of its buffer, and a close is the last callback of its turn.
  pub Reach-new_connection :
      (name : Bytes) (loop : Loop) (n : ℕ) {w : World Loop}
      → Reach (new_world name loop n) w
      → w.server.new_conn_id + 1 < 2 ^ 31
      → (find (conn_name w.server.server_name w.server.new_conn_id) w.server.connections ≡ none)
        × (s : TcpServer Loop) × (new_connection_handler w.server ≡ ok s)
        × (find (conn_name w.server.server_name w.server.new_conn_id) s.connections
            ≡ some w.server.new_conn_id)
  Reach-new_connection name loop n {w} r small =
      let h = Reach-IsSound name loop n r in
      let (f, _, _, _) = next_unborn w h in
      let key = conn_name w.server.server_name w.server.new_conn_id in
      (
        f,
        _,
        accept_ok w.server h.alone small,
        find-assign key key (length w.server.made) w.server.connections
            ∙ ap (λ b. if b then some (length w.server.made) else find key w.server.connections)
                (bytes_eq_self key)
            ∙ ap some h.size,
      )

  entry_of :
      {name : Bytes} {i : ℕ} {v : View Loop} (c : Conn Loop)
      → v.object ≡ some c
      → v.starts ≡ 0
      → v.ends ≡ 0
      → Fits name i v
      → (v.found ≡ (if is_open c.body.state then some i else none))
        × (is_open c.body.state ≡ false → c.body.state ≡ disconnected)
  entry_of c o s e (unborn h₁ h₂ h₃ h₄ h₅) = cc
  entry_of c o s e (fresh d h₁ h₂ h₃ h₄ h₅ h₆ h₇) = absurd (omega arith)
  entry_of c o s e (live d h₁ h₂ h₃ h₄ h₅ h₆ h₇) =
      let k : c ≡ d = cc in let t = ap (λ x. is_open x.body.state) k ∙ h₃ in rw (t) (h₄, λ q. cc)
  entry_of c o s e (closed d h₁ h₂ h₃ h₄ h₅ h₆) = absurd (omega arith)
  entry_of c o s e (gone d h₁ h₂ h₃ h₄ h₅ h₆) =
      let k : c ≡ d = cc in let t = ap (λ x. x.body.state) k ∙ h₂.0 in rw (t) (h₃, λ q. refl)

  -- In any run of a server and its loop, where nothing is left to run and no event is left to handle, the
  -- table has an entry for each connection that is open, and for no other.
  -- In the runs no send writes outside of its buffer, and a close is the last callback of its turn.
  pub Reach-connections :
      (name : Bytes) (loop : Loop) (n : ℕ) {w : World Loop} (i : ℕ) (c : Conn Loop)
      → Reach (new_world name loop n) w
      → w.phase ≡ processing []
      → get_elem? w.server.made i ≡ some c
      → (find (conn_name w.server.server_name i) w.server.connections
          ≡ (if is_open c.body.state then some i else none))
        × (is_open c.body.state ≡ false → c.body.state ≡ disconnected)
  Reach-connections name loop n {w} i c r p o =
      let h = Reach-IsSound name loop n r in
      let none_left : tasks w ≡ [] = ap (λ q. pending q ++ w.server.posted) p ∙ h.still [] p in
      entry_of c o (ap (total (starts_of i)) none_left) (ap (total (ends_of i)) none_left)
        (h.lives i)
