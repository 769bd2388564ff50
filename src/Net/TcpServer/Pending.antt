-- ===== src/Net/TcpServer/Pending.antt =====
-- TcpServer: what is still to be done about each connection, and a connection that closes twice in a turn.
use hydrogen_web.Common.{
  ℕ, ◌≡◌, refl, sym, ap, ◌∙◌, Bool, ◌&&◌, true, false, Option, none, some, List, ◌∷◌, ◌==◌,
  if◌then◌else◌, get_elem?,
}
use hydrogen_web.Common.Bytes.{Bytes, bytes_eq_self}
use hydrogen_web.Common.Table.{find, erase, find-erase, erase_absent}
use hydrogen_web.Common.Fault.{ok, err, assertion}
use hydrogen_web.Net.Connection.{
  State, connecting, connected, disconnecting, disconnected, is_connecting, close_handler,
}
use hydrogen_web.Net.TcpServer.{Conn, TcpServer, conn_name, remove_connection, close_connection}
use hydrogen_web.Net.TcpServer.Lives.{
  handling, World, starts_of, ends_of, total, Reach, View, tasks, is_open, Fits, unborn, fresh,
  live, closed, gone, new_world,
}
use hydrogen_web.Net.TcpServer.Steps.{put-object}
use hydrogen_web.Net.TcpServer.Turns.{active_live}
use hydrogen_web.Net.TcpServer.Closing.{closing, close_connection-eq-ok}
use hydrogen_web.Net.TcpServer.Sound.{Reach-IsSound}

abbrev is_absent : Option ℕ → Bool
is_absent none = true
is_absent (some i) = false

open_starts : (s : State) → is_open s ≡ true → is_connecting s ≡ false
open_starts connecting h = cc
open_starts connected h = refl
open_starts disconnecting h = refl
open_starts disconnected h = refl

module _ {ℓ} {Loop : Type ℓ} where
  pending_of :
      {name : Bytes} {i : ℕ} {v : View Loop} (c : Conn Loop)
      → v.object ≡ some c
      → Fits name i v
      → (v.starts ≡ (if is_connecting c.body.state then 1 else 0))
        × (v.ends ≡ (if is_open c.body.state && is_absent v.found then 1 else 0))
  pending_of c o (unborn h₁ h₂ h₃ h₄ h₅) = cc
  pending_of c o (fresh d h₁ h₂ h₃ h₄ h₅ h₆ h₇) =
      let k : c ≡ d = cc in
      let t : c.body.state ≡ connecting = ap (λ x. x.body.state) k ∙ h₃.0 in rw (t) (h₅, h₆)
  pending_of c o (live d h₁ h₂ h₃ h₄ h₅ h₆ h₇) =
      let k : c ≡ d = cc in
      let t = ap (λ x. is_open x.body.state) k ∙ h₃ in
      rw (open_starts c.body.state t, t, h₄) (h₅, h₆)
  pending_of c o (closed d h₁ h₂ h₃ h₄ h₅ h₆) =
      let k : c ≡ d = cc in
      let t = ap (λ x. is_open x.body.state) k ∙ h₂ in
      rw (open_starts c.body.state t, t, h₃) (h₄, h₅)
  pending_of c o (gone d h₁ h₂ h₃ h₄ h₅ h₆) =
      let k : c ≡ d = cc in
      let t : c.body.state ≡ disconnected = ap (λ x. x.body.state) k ∙ h₂.0 in rw (t) (h₄, h₅)

  -- In any run of a server and its loop, the functors about a connection that are still to run are these:
  -- while it is connecting, one that establishes it and none that destroys it; once it is closed, and so
  -- without an entry in the table, one that destroys it; and otherwise none, so that it is destroyed once.
  -- In the runs no send writes outside of its buffer, and a close is the last callback of its turn.
  pub Reach-pending :
      (name : Bytes) (loop : Loop) (n : ℕ) {w : World Loop} (i : ℕ) (c : Conn Loop)
      → Reach (new_world name loop n) w
      → get_elem? w.server.made i ≡ some c
      → (total (starts_of i) (tasks w) ≡ (if is_connecting c.body.state then 1 else 0))
        × (total (ends_of i) (tasks w) ≡ (
            if is_open c.body.state
              && is_absent (find (conn_name w.server.server_name i) w.server.connections)
            then 1
            else 0))
  Reach-pending name loop n {w} i c r o =
      let h = Reach-IsSound name loop n r in pending_of c o (h.lives i)

  close_absent :
      (s : TcpServer Loop) (j : ℕ) (c : Conn Loop)
      → get_elem? s.made j ≡ some c
      → is_open c.body.state ≡ true
      → ((erase c.name s.connections).0 == 1) ≡ false
      → close_connection s j ≡ err assertion
  unfolding close_connection remove_connection close_handler
  close_absent s j c o t e = rw (o, t, e) refl

  -- In any run of a server and its loop, a connection whose channel has its turn, and that has closed in
  -- it, cannot close again: the assertion on the number of entries erased from the table fails. In the
  -- runs no send writes outside of its buffer.
  pub close_twice :
      (name : Bytes) (loop : Loop) (n : ℕ) {w : World Loop} (j : ℕ) (js : List ℕ)
      {s : TcpServer Loop}
      → Reach (new_world name loop n) w
      → w.phase ≡ handling (j ∷ js)
      → close_connection w.server j ≡ ok s
      → close_connection s j ≡ err assertion
  close_twice name loop n {w} j js {s} r p run =
      let h = Reach-IsSound name loop n r in
      let (c, o, named, t, f, _, _, _) = active_live w j js p h in
      let (body, st, same) = close_connection-eq-ok w.server j c o run in
      let gone_from : find c.name (erase c.name w.server.connections).1 ≡ none =
        find-erase c.name c.name w.server.connections h.unique
        ∙ ap (λ b. if b then none else find c.name w.server.connections) (bytes_eq_self c.name) in
      let none_left = erase_absent c.name (erase c.name w.server.connections).1 gone_from in
      ap (λ x. close_connection x j) (sym same)
      ∙ close_absent (closing w.server j c body) j (record c { body = body })
          (put-object w.server j c c body o) (ap is_open st ∙ t) (ap (λ m. m == 1) none_left)
