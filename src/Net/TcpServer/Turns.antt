-- ===== src/Net/TcpServer/Turns.antt =====
-- TcpServer: the channels that a poll returns are those of connections that are open.
use hydrogen_web.Common.{
  ℕ, ◌+◌, ◌≤◌, ◌≡◌, ◌≢◌, refl, sym, ap, ◌∙◌, true, some, List, [], ◌∷◌, ◌++◌, ◌==◌, ==_iff,
  if◌then◌else◌, get_elem?, arith, inl, inr,
}
use hydrogen_web.Common.Bytes.{Bytes}
use hydrogen_web.Common.Table.{find}
use hydrogen_web.Net.TcpServer.{Conn, TcpServer, conn_name}
use hydrogen_web.Net.TcpServer.Lives.{
  handling, processing, World, occurrences, starts_of, ends_of, total, active, pending,
  is_registered, IsPolled, View, tasks, view, is_open, Fits, unborn, fresh, live, closed, gone,
  IsSound,
}
use hydrogen_web.Net.TcpServer.Steps.{same_or_not, same_view}

module _ {ℓ} {Loop : Type ℓ} where
  polled_once :
      (s : TcpServer Loop) (i : ℕ) (js : List ℕ)
      → IsPolled s js
      → (occurrences i js ≤ 1) × (occurrences i js ≢ 0 → is_registered (get_elem? s.made i) ≡ true)
  polled_once s i [] h = (omega arith, λ n. absurd (n refl))
  polled_once s i (j ∷ js) h = elim (same_or_not i j) [
    | inl e ↦
        let z : occurrences i js ≡ 0 = ap (λ k. occurrences k js) e ∙ h.1 in
        let r : is_registered (get_elem? s.made i) ≡ true =
          ap (λ k. is_registered (get_elem? s.made k)) e ∙ h.0 in
        (ground (arith, z), λ n. r)
    | inr e ↦
        let (a, b) = polled_once s i js h.2 in rw (e) (omega (arith, a), λ n. b (omega (arith, n)))
  ]

  polled_Fits :
      (name : Bytes) (i n : ℕ) (v : View Loop)
      → n ≤ 1
      → (n ≢ 0 → is_registered v.object ≡ true)
      → v.ends ≡ 0
      → Fits name i v
      → Fits name i (record v { turns = n })
  polled_Fits name i n v m r e (unborn h₁ h₂ h₃ h₄ h₅) =
      unborn h₁ h₂ h₃ h₄ (ground (arith, ap is_registered h₁, r))
  polled_Fits name i n v m r e (fresh c h₁ h₂ h₃ h₄ h₅ h₆ h₇) =
      fresh c h₁ h₂ h₃ h₄ h₅ h₆ (ground (arith, ap is_registered h₁, r, h₃.1))
  polled_Fits name i n v m r e (live c h₁ h₂ h₃ h₄ h₅ h₆ h₇) = live c h₁ h₂ h₃ h₄ h₅ h₆ m
  polled_Fits name i n v m r e (closed c h₁ h₂ h₃ h₄ h₅ h₆) = absurd (omega arith)
  polled_Fits name i n v m r e (gone c h₁ h₂ h₃ h₄ h₅ h₆) =
      gone c h₁ h₂ h₃ h₄ h₅ (ground (arith, ap is_registered h₁, r, h₂.1))

  pub polls-IsSound :
      (w : World Loop) (js : List ℕ)
      → w.phase ≡ processing []
      → IsPolled w.server js
      → IsSound w
      → IsSound (record w { phase = handling js })
  polls-IsSound w js p k h = record {
    size = h.size;
    unique = h.unique;
    alone = h.alone;
    still = λ ts e. cc;
    lives = λ i.
        let (a, b) = polled_once w.server i js k in
        let none_left : tasks w ≡ [] = ap (λ q. pending q ++ w.server.posted) p ∙ h.still [] p in
        let f =
          polled_Fits (conn_name w.server.server_name i) i (occurrences i js) (view i w) a b
            (ap (total (ends_of i)) none_left) (h.lives i) in
        same_view (conn_name w.server.server_name i) i
          (record (view i w) { turns = occurrences i js })
          (view i (record w { phase = handling js })) refl refl
          (ap (λ q. total (starts_of i) (pending q ++ w.server.posted)) (sym p))
          (ap (λ q. total (ends_of i) (pending q ++ w.server.posted)) (sym p)) (omega arith) f;
  }

  -- A connection that has a turn to come is open, and it is in the table.
  pub active_live :
      (w : World Loop) (j : ℕ) (js : List ℕ)
      → w.phase ≡ handling (j ∷ js)
      → IsSound w
      → (c : Conn Loop) × (get_elem? w.server.made j ≡ some c)
        × (c.name ≡ conn_name w.server.server_name j)
        × (is_open c.body.state ≡ true)
        × (find (conn_name w.server.server_name j) w.server.connections ≡ some j)
        × (total (starts_of j) w.server.posted ≡ 0)
        × (total (ends_of j) w.server.posted ≡ 0)
        × (occurrences j js ≡ 0)
  active_live w j js p h =
      let e : (j == j) ≡ true = (==_iff j j).1 refl in
      let t : (view j w).turns ≡ 1 + occurrences j js =
        ap (λ q. occurrences j (active q)) p
        ∙ ap (λ b. (if b then 1 else 0) + occurrences j js) e in
      let posted : tasks w ≡ w.server.posted = ap (λ q. pending q ++ w.server.posted) p in
      elim (h.lives j) [
        | unborn h₁ h₂ h₃ h₄ h₅ ↦ absurd (omega arith)
        | fresh c h₁ h₂ h₃ h₄ h₅ h₆ h₇ ↦ absurd (omega arith)
        | live c h₁ h₂ h₃ h₄ h₅ h₆ h₇ ↦ (
          c,
          h₁,
          h₂,
          h₃,
          h₄,
          ap (total (starts_of j)) (sym posted) ∙ h₅,
          ap (total (ends_of j)) (sym posted) ∙ h₆,
          omega arith,
        )
        | closed c h₁ h₂ h₃ h₄ h₅ h₆ ↦ absurd (omega arith)
        | gone c h₁ h₂ h₃ h₄ h₅ h₆ ↦ absurd (omega arith)
      ]
