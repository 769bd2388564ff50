-- ===== src/Net/TcpServer/Closing.antt =====
-- TcpServer: a close keeps the invariant.
use hydrogen_web.Common.{
  ℕ, ◌≡◌, refl, sym, ap, subst, ◌∙◌, true, false, Option, none, some, List, [], ◌∷◌, ◌++◌, ◌==◌,
  ==_iff, if◌then◌else◌, get_elem?, length-set, get_elem?-set_ne, arith, inl, inr,
}
use hydrogen_web.Common.Bytes.{bytes_eq, bytes_eq_self}
use hydrogen_web.Common.Table.{find, erase, IsUnique, find-erase, erase-IsUnique}
use hydrogen_web.Common.Fault.{ok, >>=-eq-ok, guard-eq-ok, ok-injective}
use hydrogen_web.Net.Connection.{TcpConnection, close_handler}
use hydrogen_web.Net.TcpServer.{
  Conn, destroy, TcpServer, conn_name, object, put, remove_connection, close_connection,
}
use hydrogen_web.Net.TcpServer.Lives.{
  handling, World, occurrences, starts_of, ends_of, total, active, pending, tasks, view, is_open,
  Fits, closed, IsSound,
}
use hydrogen_web.Net.TcpServer.Steps.{
  name_ne, same_or_not, ne_of_test, total-append, same_view, put-object,
}
use hydrogen_web.Net.TcpServer.Turns.{active_live}

module _ {ℓ} {Loop : Type ℓ} where
  pub object-eq-ok : (o : Option (Conn Loop)) {c : Conn Loop} → object o ≡ ok c → o ≡ some c
  object-eq-ok none h = cc
  object-eq-ok (some d) h = ap some (ok-injective h)

  -- What the server is behind a close.
  abbrev pub closing : TcpServer Loop → ℕ → Conn Loop → TcpConnection → TcpServer Loop
  closing s j c body = record (put s j c body) {
    connections = (erase c.name s.connections).1;
    posted = s.posted ++ (c.loop, destroy j) ∷ [];
  }

  pub close_connection-eq-ok :
      (s : TcpServer Loop) (j : ℕ) (c : Conn Loop) {s' : TcpServer Loop}
      → get_elem? s.made j ≡ some c
      → close_connection s j ≡ ok s'
      → (body : TcpConnection) × (body.state ≡ c.body.state) × (closing s j c body ≡ s')
  unfolding close_connection remove_connection close_handler
  close_connection-eq-ok s j c o run =
      let (d, g, u) = >>=-eq-ok (object (get_elem? s.made j)) _ run in
      let e : d ≡ c =
        (let k : some d ≡ some c = sym (object-eq-ok (get_elem? s.made j) g) ∙ o in cc) in
      let (body, k, v) = >>=-eq-ok (close_handler d.body) _ u in
      let (_, l) = guard-eq-ok (is_open d.body.state) _ _ k in
      let (_, m) = guard-eq-ok ((erase d.name s.connections).0 == 1) _ _ v in
      (
        body,
        ap (λ b. b.state) (sym (ok-injective l)) ∙ ap (λ x. x.body.state) e,
        ap (λ x. closing s j x body) (sym e) ∙ ok-injective m,
      )

  abbrev pub closing_world : World Loop → ℕ → List ℕ → Conn Loop → TcpConnection → World Loop
  closing_world w j js c body = record { server = closing w.server j c body; phase = handling js }

  closes_self :
      (w : World Loop) (j : ℕ) (js : List ℕ) (c : Conn Loop) (body : TcpConnection)
      → get_elem? w.server.made j ≡ some c
      → c.name ≡ conn_name w.server.server_name j
      → is_open body.state ≡ true
      → total (starts_of j) w.server.posted ≡ 0
      → total (ends_of j) w.server.posted ≡ 0
      → occurrences j js ≡ 0
      → IsUnique w.server.connections
      → Fits (conn_name w.server.server_name j) j (view j (closing_world w j js c body))
  closes_self w j js c body o n t s₀ e₀ z u =
      let e : (j == j) ≡ true = (==_iff j j).1 refl in
      let more = total-append (starts_of j) w.server.posted ((c.loop, destroy j) ∷ []) in
      let one = total-append (ends_of j) w.server.posted ((c.loop, destroy j) ∷ []) in
      let same =
        ap (λ m. bytes_eq m (conn_name w.server.server_name j)) n
        ∙ bytes_eq_self (conn_name w.server.server_name j) in
      closed (record c { body = body }) (put-object w.server j c c body o) t
        (find-erase (conn_name w.server.server_name j) c.name w.server.connections u
          ∙ ap
              (λ b.
                if b then none else find (conn_name w.server.server_name j) w.server.connections)
              same)
        (omega (arith, more, s₀)) (ground (arith, one, e₀, e)) z

  closes_other :
      (w : World Loop) (j : ℕ) (js : List ℕ) (c : Conn Loop) (body : TcpConnection) (i : ℕ)
      → w.phase ≡ handling (j ∷ js)
      → c.name ≡ conn_name w.server.server_name j
      → (j == i) ≡ false
      → IsSound w
      → Fits (conn_name w.server.server_name i) i (view i (closing_world w j js c body))
  closes_other w j js c body i p n e h =
      let more = total-append (starts_of i) w.server.posted ((c.loop, destroy j) ∷ []) in
      let none_more = total-append (ends_of i) w.server.posted ((c.loop, destroy j) ∷ []) in
      let other =
        ap (λ m. bytes_eq m (conn_name w.server.server_name i)) n
        ∙ name_ne w.server.server_name i j (ne_of_test e) in
      let posted : tasks w ≡ w.server.posted = ap (λ q. pending q ++ w.server.posted) p in
      let t : (view i w).turns ≡ occurrences i (j ∷ js) = ap (λ q. occurrences i (active q)) p in
      same_view (conn_name w.server.server_name i) i (view i w)
        (view i (closing_world w j js c body))
        (find-erase (conn_name w.server.server_name i) c.name w.server.connections h.unique
          ∙ ap
              (λ b.
                if b then none else find (conn_name w.server.server_name i) w.server.connections)
              other)
        (get_elem?-set_ne w.server.made (record c { body = body }) (ne_of_test e))
        (omega (arith, more, ap (total (starts_of i)) posted))
        (ground (arith, none_more, e, ap (total (ends_of i)) posted)) (ground (arith, t, e))
        (h.lives i)

  pub closes-IsSound :
      (w : World Loop) (j : ℕ) (js : List ℕ) (s : TcpServer Loop)
      → w.phase ≡ handling (j ∷ js)
      → close_connection w.server j ≡ ok s
      → IsSound w
      → IsSound (record { server = s; phase = handling js })
  closes-IsSound w j js s p run h =
      let (c, o, n, t, f, s₀, e₀, z) = active_live w j js p h in
      let (body, same, e) = close_connection-eq-ok w.server j c o run in
      subst (λ q. IsSound (record { server = q; phase = handling js })) e
        (record {
          size = length-set w.server.made j (record c { body = body }) ∙ h.size;
          unique = erase-IsUnique c.name w.server.connections h.unique;
          alone = h.alone;
          still = λ ts q. cc;
          lives = λ i. elim (same_or_not i j) [
            | inl k ↦
                subst
                  (λ m.
                    Fits (conn_name w.server.server_name m) m
                      (view m (closing_world w j js c body)))
                  (sym k) (closes_self w j js c body o n (ap is_open same ∙ t) s₀ e₀ z h.unique)
            | inr k ↦ closes_other w j js c body i p n k h
          ];
        })
