-- ===== src/Net/TcpServer/Steps.antt =====
-- TcpServer: each step keeps the invariant of the runs.
use hydrogen_web.Common.{
  ℕ, zero, suc, ◌+◌, ◌≤◌, ◌<◌, ◌≡◌, ◌≢◌, refl, sym, ap, ◌∙◌, false, none, some, List, [], ◌∷◌, ◌++◌,
  ◌==◌, ==_iff, get_elem?, length, length-set, get_elem?-set_self, get_elem?-set_ne, append-nil,
  arith, ◌⊎◌, inl, inr, Bool-cases,
}
use hydrogen_web.Common.Bytes.{Bytes, bytes_eq, eq_of_bytes_eq}
use hydrogen_web.Net.Connection.{TcpConnection, is_connecting}
use hydrogen_web.Net.TcpServer.{Conn, Task, TcpServer, conn_name, put}
use hydrogen_web.Net.TcpServer.Acts.{Kept}
use hydrogen_web.Net.TcpServer.Names.{conn_name-injective}
use hydrogen_web.Net.TcpServer.Lives.{
  handling, processing, World, occurrences, starts_of, ends_of, total, active, pending, View, view,
  is_open, Fits, unborn, fresh, live, closed, gone, IsSound,
}

pub get_elem?-append_last {ℓ} :
    {A : Type ℓ} (xs : List A) (x : A) → get_elem? (xs ++ x ∷ []) (length xs) ≡ some x
get_elem?-append_last [] x = refl
get_elem?-append_last (y ∷ xs) x = get_elem?-append_last xs x

pub get_elem?-append_ne {ℓ} :
    {A : Type ℓ} (xs : List A) (x : A) (i : ℕ)
    → i ≢ length xs
    → get_elem? (xs ++ x ∷ []) i ≡ get_elem? xs i
get_elem?-append_ne [] x zero h = absurd (h refl)
get_elem?-append_ne [] x (suc i) h = refl
get_elem?-append_ne (y ∷ xs) x zero h = refl
get_elem?-append_ne (y ∷ xs) x (suc i) h = get_elem?-append_ne xs x i (λ e. h (ap suc e))

pub get_elem?-beyond {ℓ} : {A : Type ℓ} (xs : List A) → get_elem? xs (length xs) ≡ none
get_elem?-beyond [] = refl
get_elem?-beyond (x ∷ xs) = get_elem?-beyond xs

pub get_elem?-lt {ℓ} :
    {A : Type ℓ} (xs : List A) (i : ℕ) (x : A) → get_elem? xs i ≡ some x → i < length xs
get_elem?-lt [] i x h = cc
get_elem?-lt (y ∷ xs) zero x h = omega arith
get_elem?-lt (y ∷ xs) (suc i) x h = omega (arith, get_elem?-lt xs i x h)

pub name_ne :
    (server : Bytes) (i j : ℕ) → j ≢ i → bytes_eq (conn_name server j) (conn_name server i) ≡ false
name_ne server i j h = elim (Bool-cases (bytes_eq (conn_name server j) (conn_name server i))) [
  | inl e ↦ absurd (
      h (
        conn_name-injective server j i
          (eq_of_bytes_eq (conn_name server j) (conn_name server i) e)))
  | inr e ↦ e
]

pub same_or_not : (i j : ℕ) → (i ≡ j) ⊎ ((j == i) ≡ false)
same_or_not i j = elim (Bool-cases (j == i)) [
  | inl e ↦ inl (sym ((==_iff j i).0 e))
  | inr e ↦ inr e
]

pub ne_of_test : {i j : ℕ} → (j == i) ≡ false → j ≢ i
ne_of_test h e = ground arith

module _ {ℓ} {Loop : Type ℓ} where
  pub total-append :
      (f : Task → ℕ) (ts us : List (Loop × Task)) → total f (ts ++ us) ≡ total f ts + total f us
  total-append f [] us = omega arith
  total-append f (t ∷ ts) us = omega (arith, total-append f ts us)

  -- What is the same about a connection.
  pub same_view :
      (name : Bytes) (i : ℕ) (v w : View Loop)
      → w.found ≡ v.found
      → w.object ≡ v.object
      → w.starts ≡ v.starts
      → w.ends ≡ v.ends
      → w.turns ≤ v.turns
      → Fits name i v
      → Fits name i w
  same_view name i v w f o s e t (unborn h₁ h₂ h₃ h₄ h₅) =
      unborn (o ∙ h₁) (f ∙ h₂) (s ∙ h₃) (e ∙ h₄) (omega arith)
  same_view name i v w f o s e t (fresh c h₁ h₂ h₃ h₄ h₅ h₆ h₇) =
      fresh c (o ∙ h₁) h₂ h₃ (f ∙ h₄) (s ∙ h₅) (e ∙ h₆) (omega arith)
  same_view name i v w f o s e t (live c h₁ h₂ h₃ h₄ h₅ h₆ h₇) =
      live c (o ∙ h₁) h₂ h₃ (f ∙ h₄) (s ∙ h₅) (e ∙ h₆) (omega arith)
  same_view name i v w f o s e t (closed c h₁ h₂ h₃ h₄ h₅ h₆) =
      closed c (o ∙ h₁) h₂ (f ∙ h₃) (s ∙ h₄) (e ∙ h₅) (omega arith)
  same_view name i v w f o s e t (gone c h₁ h₂ h₃ h₄ h₅ h₆) =
      gone c (o ∙ h₁) h₂ (f ∙ h₃) (s ∙ h₄) (e ∙ h₅) (omega arith)

  -- An object that changes in place.
  put_view :
      (name : Bytes) (i : ℕ) (v : View Loop) (c : Conn Loop) (body : TcpConnection)
      → v.object ≡ some c
      → (is_connecting c.body.state ≡ false)
      → Kept c.body body
      → Fits name i v
      → Fits name i (record v { object = some (record c { body = body }) })
  put_view name i v c body o n p (unborn h₁ h₂ h₃ h₄ h₅) = cc
  put_view name i v c body o n p (fresh d h₁ h₂ h₃ h₄ h₅ h₆ h₇) =
      let k : c ≡ d = cc in absurd (ground (arith, ap (λ x. x.body.state) k, h₃.0))
  put_view name i v c body o n (p, q, r) (live d h₁ h₂ h₃ h₄ h₅ h₆ h₇) =
      let k : c ≡ d = cc in
      live (record c { body = body }) refl (ap (λ x. x.name) k ∙ h₂)
        (q (ap (λ x. is_open x.body.state) k ∙ h₃)) h₄ h₅ h₆ h₇
  put_view name i v c body o n (p, q, r) (closed d h₁ h₂ h₃ h₄ h₅ h₆) =
      let k : c ≡ d = cc in
      closed (record c { body = body }) refl (q (ap (λ x. is_open x.body.state) k ∙ h₂)) h₃ h₄ h₅ h₆
  put_view name i v c body o n (p, q, r) (gone d h₁ h₂ h₃ h₄ h₅ h₆) =
      let k : c ≡ d = cc in
      gone (record c { body = body }) refl
        (r (ap (λ x. x.body.state) k ∙ h₂.0), p ∙ (ap (λ x. x.body.registered) k ∙ h₂.1)) h₃ h₄ h₅
        h₆

  pub put-object :
      (s : TcpServer Loop) (j : ℕ) (c d : Conn Loop) (body : TcpConnection)
      → get_elem? s.made j ≡ some d
      → get_elem? (put s j c body).made j ≡ some (record c { body = body })
  put-object s j c d body o =
      get_elem?-set_self s.made j (record c { body = body }) (get_elem?-lt s.made j d o)

  acts-Fits :
      (w : World Loop) (j : ℕ) (c : Conn Loop) (body : TcpConnection)
      → get_elem? w.server.made j ≡ some c
      → is_connecting c.body.state ≡ false
      → Kept c.body body
      → (i : ℕ) → Fits (conn_name w.server.server_name i) i (view i w)
      → Fits
          (conn_name w.server.server_name i)
          i
          (view i (record w { server = put w.server j c body }))
  acts-Fits w j c body o n k i f = elim (same_or_not i j) [
    | inl e ↦
        let o' : get_elem? w.server.made i ≡ some c = ap (get_elem? w.server.made) e ∙ o in
        same_view (conn_name w.server.server_name i) i
          (record (view i w) { object = some (record c { body = body }) })
          (view i (record w { server = put w.server j c body })) refl
          (ap (get_elem? (put w.server j c body).made) e ∙ put-object w.server j c c body o) refl
          refl (omega arith)
          (put_view (conn_name w.server.server_name i) i (view i w) c body o' n k f)
    | inr e ↦
        same_view (conn_name w.server.server_name i) i (view i w)
          (view i (record w { server = put w.server j c body })) refl
          (get_elem?-set_ne w.server.made (record c { body = body }) (ne_of_test e)) refl refl
          (omega arith) f
  ]

  pub acts-IsSound :
      (w : World Loop) (j : ℕ) (c : Conn Loop) (body : TcpConnection)
      → get_elem? w.server.made j ≡ some c
      → is_connecting c.body.state ≡ false
      → Kept c.body body
      → IsSound w
      → IsSound (record w { server = put w.server j c body })
  acts-IsSound w j c body o n k h = record {
    size = length-set w.server.made j (record c { body = body }) ∙ h.size;
    unique = h.unique;
    alone = h.alone;
    still = h.still;
    lives = λ i. acts-Fits w j c body o n k i (h.lives i);
  }

  pub passes-IsSound :
      (w : World Loop) (j : ℕ) (js : List ℕ)
      → w.phase ≡ handling (j ∷ js)
      → IsSound w
      → IsSound (record w { phase = handling js })
  passes-IsSound w j js p h = record {
    size = h.size;
    unique = h.unique;
    alone = h.alone;
    still = λ ts e. cc;
    lives = λ i.
        same_view (conn_name w.server.server_name i) i (view i w)
          (view i (record w { phase = handling js })) refl refl
          (ap (λ q. total (starts_of i) (pending q ++ w.server.posted)) (sym p))
          (ap (λ q. total (ends_of i) (pending q ++ w.server.posted)) (sym p))
          (omega (arith, ap (λ q. occurrences i (active q)) p)) (h.lives i);
  }

  pub takes-IsSound :
      (w : World Loop)
      → w.phase ≡ handling []
      → IsSound w
      → IsSound
          (record { server = record w.server { posted = [] }; phase = processing w.server.posted })
  takes-IsSound w p h = record {
    size = h.size;
    unique = h.unique;
    alone = h.alone;
    still = λ ts e. refl;
    lives = λ i.
        same_view (conn_name w.server.server_name i) i (view i w)
          (view i (record {
            server = record w.server { posted = [] };
            phase = processing w.server.posted;
          }))
          refl refl
          (ap (total (starts_of i)) (append-nil w.server.posted)
            ∙ ap (λ q. total (starts_of i) (pending q ++ w.server.posted)) (sym p))
          (ap (total (ends_of i)) (append-nil w.server.posted)
            ∙ ap (λ q. total (ends_of i) (pending q ++ w.server.posted)) (sym p))
          (omega arith) (h.lives i);
  }
