-- ===== src/Sio/Reversing.antt =====
-- sio: `_strlen` and `_reverse` on an array that holds a text and its terminator.
use mathlib.Core.List.{reverse, reverse-cons, reverse-append}
use hydrogen_web.Common.{
  ℕ, zero, suc, ◌+◌, ◌-◌, ◌≤◌, ◌<◌, ◌≡◌, refl, sym, ap, ◌∙◌, true, false, [], ◌∷◌, ◌++◌, ltb,
  lt→ltb, ge→ltb, subst, arith, length, set, length-append, append_assoc, ◌⊎◌, inl, inr,
}
use hydrogen_web.Common.Bytes.{Bytes, Free}
use hydrogen_web.Common.Fault.{ok}
use hydrogen_web.Sio.{store, load, _strlen, reverse_loop, _reverse}

pub strlen_lem : (text rest : Bytes) → Free 0 text → _strlen (text ++ 0 ∷ rest) ≡ ok (length text)
unfolding _strlen
strlen_lem [] rest h = refl
strlen_lem (x ∷ xs) rest h = ground (arith, strlen_lem xs rest h.1)

-- An access at the end of a prefix.
pub load_lem : (pre : Bytes) (x : ℕ) (post : Bytes) → load (pre ++ x ∷ post) (length pre) ≡ ok x
load_lem [] x post = refl
load_lem (y ∷ pre) x post = load_lem pre x post

set-append :
    (pre : Bytes) (x y : ℕ) (post : Bytes) → set (pre ++ x ∷ post) (length pre) y ≡ pre ++ y ∷ post
set-append [] x y post = refl
set-append (z ∷ pre) x y post = ap (λ s. z ∷ s) (set-append pre x y post)

pub store_lem :
    (pre : Bytes) (x y : ℕ) (post : Bytes)
    → store (pre ++ x ∷ post) (length pre) y ≡ ok (pre ++ y ∷ post)
store_lem pre x y post =
    let h : ltb (length pre) (length (pre ++ x ∷ post)) ≡ true =
      lt→ltb _ _ (omega (arith, length-append pre (x ∷ post))) in
    rw (h) (ap ok (set-append pre x y post))

-- The same at an index and in an array that are given by equations.
load_at :
    (s pre : Bytes) (x : ℕ) (post : Bytes) (i : ℕ)
    → pre ++ x ∷ post ≡ s
    → length pre ≡ i
    → load s i ≡ ok x
load_at s pre x post i e h =
    subst (λ t. load t i ≡ ok x) e
      (subst (λ k. load (pre ++ x ∷ post) k ≡ ok x) h (load_lem pre x post))

pub store_at :
    (s pre : Bytes) (x y : ℕ) (post : Bytes) (i : ℕ)
    → pre ++ x ∷ post ≡ s
    → length pre ≡ i
    → store s i y ≡ ok (pre ++ y ∷ post)
store_at s pre x y post i e h =
    subst (λ t. store t i y ≡ ok (pre ++ y ∷ post)) e
      (subst (λ k. store (pre ++ x ∷ post) k y ≡ ok (pre ++ y ∷ post)) h (store_lem pre x y post))

-- A text is empty, or has a last character.
snoc_cases : (xs : Bytes) → (xs ≡ []) ⊎ ((m : Bytes) × (y : ℕ) × (xs ≡ m ++ y ∷ []))
snoc_cases [] = inl refl
snoc_cases (x ∷ xs) = elim (snoc_cases xs) [
  | inl e ↦ inr ([], x, ap (λ l. x ∷ l) e)
  | inr (m, y, e) ↦ inr (x ∷ m, y, ap (λ l. x ∷ l) e)
]

-- One round of the loop swaps the outermost characters.
swap_round :
    (fuel : ℕ) (pre : Bytes) (x : ℕ) (m : Bytes) (y : ℕ) (post : Bytes) (i end : ℕ)
    → i ≡ length pre
    → end ≡ length pre + length m + 2
    → reverse_loop (suc fuel) i end (pre ++ x ∷ (m ++ y ∷ post))
      ≡ reverse_loop fuel (i + 1) (end - 1) (pre ++ y ∷ (m ++ x ∷ post))
unfolding reverse_loop
swap_round fuel pre x m y post i end p q =
    let t : ltb (i + 1) end ≡ true = lt→ltb _ _ (omega arith) in
    let n : length (pre ++ x ∷ m) ≡ end - 1 = omega (arith, length-append pre (x ∷ m)) in
    let k : length (pre ++ y ∷ m) ≡ end - 1 = omega (arith, length-append pre (y ∷ m)) in
    let a = load_at _ pre x (m ++ y ∷ post) i refl (sym p) in
    let b = load_at _ (pre ++ x ∷ m) y post (end - 1) (append_assoc pre (x ∷ m) (y ∷ post)) n in
    let c = store_at _ pre x y (m ++ y ∷ post) i refl (sym p) in
    let d = store_at _ (pre ++ y ∷ m) y x post (end - 1) (append_assoc pre (y ∷ m) (y ∷ post)) k in
    rw (t, a, b, c, d, reverse_loop)
      (ap (reverse_loop fuel (i + 1) (end - 1)) (append_assoc pre (y ∷ m) (x ∷ post)))

loop_ends : (fuel i end : ℕ) (s : Bytes) → end ≤ i + 1 → reverse_loop (suc fuel) i end s ≡ ok s
unfolding reverse_loop
loop_ends fuel i end s h =
    let t : ltb (i + 1) end ≡ false = ge→ltb _ _ h in rw (t, reverse_loop) refl

-- The text between two characters, turned round with them.
reverse_ends :
    (x : ℕ) (m : Bytes) (y : ℕ) (post : Bytes)
    → y ∷ (reverse m ++ x ∷ post) ≡ reverse (x ∷ (m ++ y ∷ [])) ++ post
reverse_ends x m y post =
    sym (append_assoc (y ∷ reverse m) (x ∷ []) post)
    ∙ ap (λ l. (l ++ x ∷ []) ++ post) (sym (reverse-append m (y ∷ [])))
    ∙ ap (λ l. l ++ post) (sym (reverse-cons x (m ++ y ∷ [])))

-- The loop reverses what stands between its indices.
reverse_loop_lem :
    (fuel : ℕ) (pre mid post : Bytes) (i end : ℕ)
    → i ≡ length pre
    → end ≡ length pre + length mid
    → length mid < fuel
    → reverse_loop fuel i end (pre ++ (mid ++ post)) ≡ ok (pre ++ (reverse mid ++ post))
reverse_loop_lem zero pre mid post i end p q f = absurd (omega arith)
reverse_loop_lem (suc fuel) pre [] post i end p q f =
    loop_ends fuel i end (pre ++ post) (omega arith)
reverse_loop_lem (suc fuel) pre (x ∷ xs) post i end p q f = elim (snoc_cases xs) [
  | inl e ↦ rw (e) (loop_ends fuel i end (pre ++ x ∷ post) (omega (arith, ap length e)))
  | inr (m, y, e) ↦
      let n : length xs ≡ length m + 1 = ap length e ∙ length-append m (y ∷ []) in
      let k : length (pre ++ y ∷ []) ≡ length pre + 1 = length-append pre (y ∷ []) in
      let rest =
        reverse_loop_lem fuel (pre ++ y ∷ []) m (x ∷ post) (i + 1) (end - 1) (omega arith)
          (omega arith) (omega arith) in
      ap (λ l. reverse_loop (suc fuel) i end (pre ++ x ∷ (l ++ post))) e
      ∙ ap (λ l. reverse_loop (suc fuel) i end (pre ++ x ∷ l)) (append_assoc m (y ∷ []) post)
      ∙ swap_round fuel pre x m y post i end p (omega arith)
      ∙ ap (reverse_loop fuel (i + 1) (end - 1)) (sym (append_assoc pre (y ∷ []) (m ++ x ∷ post)))
      ∙ rest
      ∙ ap ok (append_assoc pre (y ∷ []) (reverse m ++ x ∷ post))
      ∙ ap (λ l. ok (pre ++ l)) (reverse_ends x m y post)
      ∙ ap (λ l. ok (pre ++ (reverse (x ∷ l) ++ post))) (sym e)
]

-- `_reverse` of an array that holds a text reverses the text in its place.
pub reverse_lem :
    (text rest : Bytes) → Free 0 text → _reverse (text ++ 0 ∷ rest) ≡ ok (reverse text ++ 0 ∷ rest)
unfolding _reverse
reverse_lem text rest h = rw (strlen_lem text rest h) (
    reverse_loop_lem (length text + 1) [] text (0 ∷ rest) 0 (length text) refl (omega arith)
      (omega arith))
