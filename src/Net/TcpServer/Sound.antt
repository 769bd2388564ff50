-- ===== src/Net/TcpServer/Sound.antt =====
-- TcpServer: the invariant holds in each run of a server and its loop.
use hydrogen_web.Common.{
  ℕ, ◌+◌, ◌≡◌, refl, sym, ap, subst, ◌∙◌, true, false, none, some, List, [], ◌∷◌, ◌++◌, ◌==◌,
  ==_iff, ltb, if◌then◌else◌, get_elem?, length, length-append, arith, inl, inr, ◌^◌,
}
use hydrogen_web.Common.Bytes.{Bytes, bytes_eq_self}
use hydrogen_web.Common.Table.{find, find-assign, assign-IsUnique}
use hydrogen_web.Common.Fault.{ok, >>=-eq-ok, guard-eq-ok, ok-injective}
use hydrogen_web.Net.Connection.{new_connection}
use hydrogen_web.Net.ThreadPool.{EventLoopThreadPool, next_loop}
use hydrogen_web.Net.TcpServer.{
  Conn, Task, establish, TcpServer, conn_name, add_connection, new_connection_handler,
}
use hydrogen_web.Net.TcpServer.Acts.{Step-Kept}
use hydrogen_web.Net.TcpServer.Lives.{
  handling, World, starts_of, ends_of, total, pending, Step, Reach, view, Fits, unborn, fresh, live,
  closed, gone, IsSound,
}
use hydrogen_web.Net.TcpServer.Steps.{
  get_elem?-append_last, get_elem?-append_ne, get_elem?-beyond, name_ne, same_or_not, ne_of_test,
  total-append, same_view, acts-IsSound, passes-IsSound, takes-IsSound,
}
use hydrogen_web.Net.TcpServer.Turns.{polls-IsSound}
use hydrogen_web.Net.TcpServer.Closing.{closes-IsSound}
use hydrogen_web.Net.TcpServer.Tasks.{runs-IsSound}
use hydrogen_web.Net.TcpServer.Lives.{
  here, next, accepts, acts, passes, closes, takes, runs, polls, new_world,
}

module _ {ℓ} {Loop : Type ℓ} where
  pub next_loop-alone :
      (p : EventLoopThreadPool Loop) → p.loops ≡ [] → next_loop p ≡ ok (p.main_loop, p)
  unfolding next_loop
  next_loop-alone p h = rw (h) refl

  new_connection_handler-eq-ok :
      (s : TcpServer Loop) {s' : TcpServer Loop}
      → s.thread_pool.loops ≡ []
      → new_connection_handler s ≡ ok s'
      → add_connection s (s.thread_pool.main_loop, s.thread_pool) ≡ s'
  unfolding new_connection_handler
  new_connection_handler-eq-ok s a run =
      let (_, u) = guard-eq-ok (ltb (s.new_conn_id + 1) (2 ^ 31)) _ _ run in
      let (r, k, v) = >>=-eq-ok (next_loop s.thread_pool) _ u in
      ap (add_connection s) (ok-injective (sym (next_loop-alone s.thread_pool a) ∙ k))
      ∙ ok-injective v

  -- There is nothing yet of the connection that is made next.
  pub next_unborn :
      (w : World Loop)
      → IsSound w
      → let i = w.server.new_conn_id in
        (find (conn_name w.server.server_name i) w.server.connections ≡ none)
        × ((view i w).starts ≡ 0)
        × ((view i w).ends ≡ 0)
        × ((view i w).turns ≡ 0)
  next_unborn w h =
      let i = w.server.new_conn_id in
      let o : get_elem? w.server.made i ≡ none =
        ap (get_elem? w.server.made) (sym h.size) ∙ get_elem?-beyond w.server.made in
      elim (h.lives i) [
        | unborn h₁ h₂ h₃ h₄ h₅ ↦ (h₂, h₃, h₄, h₅)
        | fresh c h₁ h₂ h₃ h₄ h₅ h₆ h₇ ↦ cc
        | live c h₁ h₂ h₃ h₄ h₅ h₆ h₇ ↦ cc
        | closed c h₁ h₂ h₃ h₄ h₅ h₆ ↦ cc
        | gone c h₁ h₂ h₃ h₄ h₅ h₆ ↦ cc
      ]

  abbrev added_world : World Loop → World Loop
  added_world w = record w {
    server = add_connection w.server (w.server.thread_pool.main_loop, w.server.thread_pool);
  }

  accepts_self :
      (w : World Loop) (js : List ℕ)
      → w.phase ≡ handling js
      → IsSound w
      → Fits
          (conn_name w.server.server_name w.server.new_conn_id)
          w.server.new_conn_id
          (view w.server.new_conn_id (added_world w))
  unfolding new_connection
  accepts_self w js p h =
      let i = w.server.new_conn_id in
      let m = length w.server.made in
      let name = conn_name w.server.server_name i in
      let t : Loop × Task = (w.server.thread_pool.main_loop, establish m) in
      let c : Conn Loop = record {
        name = name;
        loop = w.server.thread_pool.main_loop;
        body = new_connection;
      } in
      let (_, s₀, e₀, z) = next_unborn w h in
      let k : (m == i) ≡ true = (==_iff m i).1 h.size in
      let old = ap (λ q. pending q ++ w.server.posted) p in
      let new = ap (λ q. pending q ++ (w.server.posted ++ t ∷ [])) p in
      let more = total-append (starts_of i) w.server.posted (t ∷ []) in
      let none_more = total-append (ends_of i) w.server.posted (t ∷ []) in
      fresh c
        (ap (get_elem? (w.server.made ++ c ∷ [])) (sym h.size)
          ∙ get_elem?-append_last w.server.made c)
        refl (refl, refl)
        (find-assign name name m w.server.connections
          ∙ ap (λ b. if b then some m else find name w.server.connections) (bytes_eq_self name)
          ∙ ap some h.size)
        (ground (arith, more, k, s₀, ap (total (starts_of i)) old, ap (total (starts_of i)) new))
        (omega (arith, none_more, e₀, ap (total (ends_of i)) old, ap (total (ends_of i)) new)) z

  accepts_other :
      (w : World Loop) (js : List ℕ) (i : ℕ)
      → w.phase ≡ handling js
      → (w.server.new_conn_id == i) ≡ false
      → IsSound w
      → Fits (conn_name w.server.server_name i) i (view i (added_world w))
  accepts_other w js i p e h =
      let m = length w.server.made in
      let k : (m == i) ≡ false = ap (λ n. n == i) h.size ∙ e in
      let t : Loop × Task = (w.server.thread_pool.main_loop, establish m) in
      let old = ap (λ q. pending q ++ w.server.posted) p in
      let new = ap (λ q. pending q ++ (w.server.posted ++ t ∷ [])) p in
      let more = total-append (starts_of i) w.server.posted (t ∷ []) in
      let none_more = total-append (ends_of i) w.server.posted (t ∷ []) in
      same_view (conn_name w.server.server_name i) i (view i w) (view i (added_world w))
        (find-assign (conn_name w.server.server_name i)
            (conn_name w.server.server_name w.server.new_conn_id) m w.server.connections
          ∙ ap
              (λ b.
                if b then some m else find (conn_name w.server.server_name i) w.server.connections)
              (name_ne w.server.server_name i w.server.new_conn_id (ne_of_test e)))
        (get_elem?-append_ne w.server.made _ i (λ q. ne_of_test k (sym q)))
        (ground (arith, more, k, ap (total (starts_of i)) old, ap (total (starts_of i)) new))
        (omega (arith, none_more, ap (total (ends_of i)) old, ap (total (ends_of i)) new))
        (omega arith) (h.lives i)

  accepts-IsSound :
      (w : World Loop) (js : List ℕ) (s : TcpServer Loop)
      → w.phase ≡ handling js
      → new_connection_handler w.server ≡ ok s
      → IsSound w
      → IsSound (record w { server = s })
  accepts-IsSound w js s p run h =
      let m = length w.server.made in
      subst (λ q. IsSound (record w { server = q }))
        (new_connection_handler-eq-ok w.server h.alone run)
        (record {
          size = length-append w.server.made _ ∙ ap (λ n. n + 1) h.size;
          unique =
              assign-IsUnique (conn_name w.server.server_name w.server.new_conn_id) m
                w.server.connections h.unique;
          alone = h.alone;
          still = λ ts e. cc;
          lives = λ i. elim (same_or_not i w.server.new_conn_id) [
            | inl k ↦
                subst (λ n. Fits (conn_name w.server.server_name n) n (view n (added_world w)))
                  (sym k) (accepts_self w js p h)
            | inr k ↦ accepts_other w js i p k h
          ];
        })

  Step-IsSound : {w x : World Loop} → Step w x → IsSound w → IsSound x
  Step-IsSound (accepts w js s p run) h = accepts-IsSound w js s p run h
  Step-IsSound (acts w j c bytes body o n step) h = acts-IsSound w j c body o n (Step-Kept step n) h
  Step-IsSound (passes w j js p) h = passes-IsSound w j js p h
  Step-IsSound (closes w j js s p run) h = closes-IsSound w j js s p run h
  Step-IsSound (takes w p) h = takes-IsSound w p h
  Step-IsSound (runs w (l, t) ts s p run) h = runs-IsSound w l t ts s p run h
  Step-IsSound (polls w js p k) h = polls-IsSound w js p k h

  new_world-IsSound : (name : Bytes) (loop : Loop) (n : ℕ) → IsSound (new_world name loop n)
  unfolding find
  new_world-IsSound name loop n = record {
    size = refl;
    unique = tt;
    alone = refl;
    still = λ ts e. refl;
    lives = λ i. unborn refl refl refl refl refl;
  }

  pub Reach-IsSound :
      (name : Bytes) (loop : Loop) (n : ℕ) {w : World Loop}
      → Reach (new_world name loop n) w
      → IsSound w
  Reach-IsSound name loop n here = new_world-IsSound name loop n
  Reach-IsSound name loop n (next r s) = Step-IsSound s (Reach-IsSound name loop n r)
