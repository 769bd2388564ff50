-- ===== src/Net/TcpServer/Tasks.antt =====
-- TcpServer: the functors of a run, and new connections, keep the invariant.
use hydrogen_web.Common.{
  ℕ, ◌+◌, ◌≡◌, refl, sym, ap, subst, ◌∙◌, true, false, some, List, ◌∷◌, ◌++◌, ◌==◌, ==_iff,
  if◌then◌else◌, get_elem?, length-set, get_elem?-set_ne, arith, inl, inr,
}
use hydrogen_web.Common.Fault.{ok, >>=-eq-ok, guard-eq-ok, ok-injective}
use hydrogen_web.Net.Connection.{
  TcpConnection, disconnected, is_connecting, establish_connection, destroy_connection,
}
use hydrogen_web.Net.TcpServer.{
  Conn, Task, establish, destroy, TcpServer, conn_name, object, put, perform,
}
use hydrogen_web.Net.TcpServer.Lives.{
  processing, World, starts_of, ends_of, total, pending, view, is_open, Fits, unborn, fresh, live,
  closed, gone, IsSound,
}
use hydrogen_web.Net.TcpServer.Steps.{same_or_not, ne_of_test, same_view, put-object}
use hydrogen_web.Net.TcpServer.Closing.{object-eq-ok}

module _ {ℓ} {Loop : Type ℓ} where
  -- The server in which a functor has run on the object of a connection.
  abbrev ran_world : World Loop → ℕ → List (Loop × Task) → Conn Loop → TcpConnection → World Loop
  ran_world w j ts c body = record { server = put w.server j c body; phase = processing ts }

  -- The rest of the functors that have not run.
  abbrev pub behind : World Loop → List (Loop × Task) → List (Loop × Task)
  behind w ts = ts ++ w.server.posted

  pub starts_before :
      (w : World Loop) (i : ℕ) (t : Loop × Task) (ts : List (Loop × Task))
      → w.phase ≡ processing (t ∷ ts)
      → ((view i w).starts ≡ starts_of i t.1 + total (starts_of i) (behind w ts))
        × ((view i w).ends ≡ ends_of i t.1 + total (ends_of i) (behind w ts))
  starts_before w i t ts p = (
    ap (λ q. total (starts_of i) (pending q ++ w.server.posted)) p,
    ap (λ q. total (ends_of i) (pending q ++ w.server.posted)) p,
  )

  perform_establish :
      (s : TcpServer Loop) (j : ℕ) {s' : TcpServer Loop}
      → perform s (establish j) ≡ ok s'
      → (c : Conn Loop) × (body : TcpConnection) × (get_elem? s.made j ≡ some c)
        × (is_open body.state ≡ true)
        × (put s j c body ≡ s')
  unfolding perform establish_connection
  perform_establish s j run =
      let (c, g, u) = >>=-eq-ok (object (get_elem? s.made j)) _ run in
      let (body, k, v) = >>=-eq-ok (establish_connection c.body) _ u in
      let (_, l) = guard-eq-ok (is_connecting c.body.state) _ _ k in
      (
        c,
        body,
        object-eq-ok (get_elem? s.made j) g,
        ap (λ b. is_open b.state) (sym (ok-injective l)),
        ok-injective v,
      )

  perform_destroy :
      (s : TcpServer Loop) (j : ℕ) {s' : TcpServer Loop}
      → perform s (destroy j) ≡ ok s'
      → (c : Conn Loop) × (body : TcpConnection) × (get_elem? s.made j ≡ some c)
        × (body.state ≡ disconnected)
        × (body.registered ≡ false)
        × (put s j c body ≡ s')
  unfolding perform destroy_connection
  perform_destroy s j run =
      let (c, g, u) = >>=-eq-ok (object (get_elem? s.made j)) _ run in
      let (body, k, v) = >>=-eq-ok (destroy_connection c.body) _ u in
      let (_, l) = guard-eq-ok (is_open c.body.state) _ _ k in
      let same = sym (ok-injective l) in
      (
        c,
        body,
        object-eq-ok (get_elem? s.made j) g,
        ap (λ b. b.state) same,
        ap (λ b. b.registered) same,
        ok-injective v,
      )

  establish_self :
      (w : World Loop) (j : ℕ) (l : Loop) (ts : List (Loop × Task)) (c : Conn Loop)
      (body : TcpConnection)
      → w.phase ≡ processing ((l, establish j) ∷ ts)
      → get_elem? w.server.made j ≡ some c
      → is_open body.state ≡ true
      → Fits (conn_name w.server.server_name j) j (view j w)
      → Fits (conn_name w.server.server_name j) j (view j (ran_world w j ts c body))
  establish_self w j l ts c body p o t f =
      let (s₀, e₀) = starts_before w j (l, establish j) ts p in
      let e : (j == j) ≡ true = (==_iff j j).1 refl in
      let s₁ : (view j w).starts ≡ 1 + total (starts_of j) (behind w ts) =
        s₀ ∙ ap (λ b. (if b then 1 else 0) + total (starts_of j) (behind w ts)) e in
      elim f [
        | unborn h₁ h₂ h₃ h₄ h₅ ↦ absurd (omega arith)
        | fresh d h₁ h₂ h₃ h₄ h₅ h₆ h₇ ↦
            let k : d ≡ c = (let q : some d ≡ some c = sym h₁ ∙ o in cc) in
            live (record c { body = body }) (put-object w.server j c c body o)
              (ap (λ x. x.name) (sym k) ∙ h₂) t h₄ (omega arith) (omega arith) (omega arith)
        | live d h₁ h₂ h₃ h₄ h₅ h₆ h₇ ↦ absurd (omega arith)
        | closed d h₁ h₂ h₃ h₄ h₅ h₆ ↦ absurd (omega arith)
        | gone d h₁ h₂ h₃ h₄ h₅ h₆ ↦ absurd (omega arith)
      ]

  destroy_self :
      (w : World Loop) (j : ℕ) (l : Loop) (ts : List (Loop × Task)) (c : Conn Loop)
      (body : TcpConnection)
      → w.phase ≡ processing ((l, destroy j) ∷ ts)
      → get_elem? w.server.made j ≡ some c
      → (body.state ≡ disconnected) × (body.registered ≡ false)
      → Fits (conn_name w.server.server_name j) j (view j w)
      → Fits (conn_name w.server.server_name j) j (view j (ran_world w j ts c body))
  destroy_self w j l ts c body p o t f =
      let (s₀, e₀) = starts_before w j (l, destroy j) ts p in
      let e : (j == j) ≡ true = (==_iff j j).1 refl in
      let e₁ : (view j w).ends ≡ 1 + total (ends_of j) (behind w ts) =
        e₀ ∙ ap (λ b. (if b then 1 else 0) + total (ends_of j) (behind w ts)) e in
      elim f [
        | unborn h₁ h₂ h₃ h₄ h₅ ↦ absurd (omega arith)
        | fresh d h₁ h₂ h₃ h₄ h₅ h₆ h₇ ↦ absurd (omega arith)
        | live d h₁ h₂ h₃ h₄ h₅ h₆ h₇ ↦ absurd (omega arith)
        | closed d h₁ h₂ h₃ h₄ h₅ h₆ ↦
            gone (record c { body = body }) (put-object w.server j c c body o) t h₃ (omega arith)
              (omega arith) (omega arith)
        | gone d h₁ h₂ h₃ h₄ h₅ h₆ ↦ absurd (omega arith)
      ]

  ran_other :
      (w : World Loop) (j : ℕ) (t : Loop × Task) (ts : List (Loop × Task)) (c : Conn Loop)
      (body : TcpConnection) (i : ℕ)
      → w.phase ≡ processing (t ∷ ts)
      → (j == i) ≡ false
      → (starts_of i t.1 ≡ 0) × (ends_of i t.1 ≡ 0)
      → Fits (conn_name w.server.server_name i) i (view i w)
      → Fits (conn_name w.server.server_name i) i (view i (ran_world w j ts c body))
  ran_other w j t ts c body i p e z f =
      let (s₀, e₀) = starts_before w i t ts p in
      same_view (conn_name w.server.server_name i) i (view i w) (view i (ran_world w j ts c body))
        refl (get_elem?-set_ne w.server.made (record c { body = body }) (ne_of_test e))
        (omega (arith, s₀, z.0)) (omega (arith, e₀, z.1)) (omega arith) f

  ran-IsSound :
      (w : World Loop) (t : Loop × Task) (ts : List (Loop × Task)) (j : ℕ) (c : Conn Loop)
      (body : TcpConnection)
      → w.phase ≡ processing (t ∷ ts)
      → ((i : ℕ) → (j == i) ≡ false → (starts_of i t.1 ≡ 0) × (ends_of i t.1 ≡ 0))
      → Fits (conn_name w.server.server_name j) j (view j (ran_world w j ts c body))
      → IsSound w
      → IsSound (ran_world w j ts c body)
  ran-IsSound w t ts j c body p others self h = record {
    size = length-set w.server.made j (record c { body = body }) ∙ h.size;
    unique = h.unique;
    alone = h.alone;
    still = λ us e. h.still (t ∷ ts) p;
    lives = λ i. elim (same_or_not i j) [
      | inl k ↦
          subst (λ m. Fits (conn_name w.server.server_name m) m (view m (ran_world w j ts c body)))
            (sym k) self
      | inr k ↦ ran_other w j t ts c body i p k (others i k) (h.lives i)
    ];
  }

  pub runs-IsSound :
      (w : World Loop) (l : Loop) (t : Task) (ts : List (Loop × Task)) (s : TcpServer Loop)
      → w.phase ≡ processing ((l, t) ∷ ts)
      → perform w.server t ≡ ok s
      → IsSound w
      → IsSound (record { server = s; phase = processing ts })
  runs-IsSound w l (establish j) ts s p run h =
      let (c, body, o, t, e) = perform_establish w.server j run in
      subst (λ q. IsSound (record { server = q; phase = processing ts })) e
        (ran-IsSound w (l, establish j) ts j c body p (λ i k. (rw (k) refl, refl))
          (establish_self w j l ts c body p o t (h.lives j)) h)
  runs-IsSound w l (destroy j) ts s p run h =
      let (c, body, o, d, r, e) = perform_destroy w.server j run in
      subst (λ q. IsSound (record { server = q; phase = processing ts })) e
        (ran-IsSound w (l, destroy j) ts j c body p (λ i k. (refl, rw (k) refl))
          (destroy_self w j l ts c body p o (d, r) (h.lives j)) h)
