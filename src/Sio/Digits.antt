-- ===== src/Sio/Digits.antt =====
-- sio: the loop of `_ltoa` in base 10 leaves the digits of the number, last one first.
use mathlib.Core.List.{reverse, reverse-cons}
use hydrogen_web.Common.{
  ℕ, zero, suc, ◌+◌, ◌*◌, ◌/◌, ◌%◌, ◌≤◌, ◌<◌, ◌≡◌, refl, sym, ap, ◌∙◌, true, false, [], ◌∷◌, ◌++◌,
  Bool-cases, inl, inr, ltb, ltb→lt, ge→ltb, ap₂, length-append, arith, length, drop, append_assoc,
}
use hydrogen_web.Common.Bytes.{Bytes, Free}
use hydrogen_web.Common.Decimal.{digits_onto}
use hydrogen_web.Common.Fault.{ok}
use hydrogen_web.Sio.{store, digit_char, digits_loop}
use hydrogen_web.Sio.Reversing.{store_at}

-- The digits of a number, last one first.
unfoldable pub rev_digits : ℕ → ℕ → Bytes
rev_digits zero n = []
rev_digits (suc fuel) n = elim (ltb 0 (n / 10)) [
  | true ↦ digit_char (n % 10) ∷ rev_digits fuel (n / 10)
  | false ↦ digit_char (n % 10) ∷ []
]

rev_digits_more :
    (fuel n : ℕ)
    → ltb 0 (n / 10) ≡ true
    → rev_digits (suc fuel) n ≡ digit_char (n % 10) ∷ rev_digits fuel (n / 10)
unfolding rev_digits
rev_digits_more fuel n h = rw (h, rev_digits) refl

rev_digits_last :
    (fuel n : ℕ) → ltb 0 (n / 10) ≡ false → rev_digits (suc fuel) n ≡ digit_char (n % 10) ∷ []
unfolding rev_digits
rev_digits_last fuel n h = rw (h, rev_digits) refl

-- `decimal` prints the same digits, first one first.
pub digits_onto-rev_digits :
    (fuel n : ℕ) (acc : Bytes)
    → n < fuel
    → digits_onto fuel n acc ≡ reverse (rev_digits fuel n) ++ acc
unfolding digits_onto
digits_onto-rev_digits zero n acc h = absurd (omega arith)
digits_onto-rev_digits (suc fuel) n acc h = elim (Bool-cases (ltb 0 (n / 10))) [
  | inl e ↦
      let t : ltb n 10 ≡ false = ground arith in
      let d : digit_char (n % 10) ≡ b'0' + n % 10 = ground arith in
      rw
        (t, rev_digits_more fuel n e, reverse-cons (digit_char (n % 10)) (rev_digits fuel (n / 10)))
        (digits_onto-rev_digits fuel (n / 10) ((b'0' + n % 10) ∷ acc)
            (omega (arith, ltb→lt 0 (n / 10) e))
          ∙ ap (λ c. reverse (rev_digits fuel (n / 10)) ++ c ∷ acc) (sym d)
          ∙ sym (append_assoc (reverse (rev_digits fuel (n / 10))) (digit_char (n % 10) ∷ []) acc))
  | inr e ↦
      let t : ltb n 10 ≡ true = ground arith in
      let d : digit_char (n % 10) ≡ b'0' + n = ground arith in
      rw (t, rev_digits_last fuel n e) (ap (λ c. c ∷ acc) (sym d))
]

pub rev_digits-Free : (fuel n : ℕ) → Free 0 (rev_digits fuel n)
unfolding rev_digits
rev_digits-Free zero n = tt
rev_digits-Free (suc fuel) n = elim (Bool-cases (ltb 0 (n / 10))) [
  | inl e ↦ rw (rev_digits_more fuel n e) (ground arith, rev_digits-Free fuel (n / 10))
  | inr e ↦ rw (rev_digits_last fuel n e) (ground arith, tt)
]

abbrev pub ten_to : ℕ → ℕ
ten_to zero = 1
ten_to (suc k) = 10 * ten_to k

pub length-rev_digits : (fuel n k : ℕ) → n < ten_to (suc k) → length (rev_digits fuel n) ≤ suc k
unfolding rev_digits
length-rev_digits zero n k h = omega arith
length-rev_digits (suc fuel) n zero h =
    rw (rev_digits_last fuel n (ge→ltb 0 (n / 10) (omega arith))) (omega arith)
length-rev_digits (suc fuel) n (suc k) h = elim (Bool-cases (ltb 0 (n / 10))) [
  | inl e ↦
      rw (rev_digits_more fuel n e) (omega (arith, length-rev_digits fuel (n / 10) k (omega arith)))
  | inr e ↦ rw (rev_digits_last fuel n e) (omega arith)
]

length-rev_digits_pos : (fuel n : ℕ) → 0 < length (rev_digits (suc fuel) n)
length-rev_digits_pos fuel n = elim (Bool-cases (ltb 0 (n / 10))) [
  | inl e ↦ rw (rev_digits_more fuel n e) (omega arith)
  | inr e ↦ rw (rev_digits_last fuel n e) (omega arith)
]

digits_loop_more :
    (fuel n : ℕ) (s s' : Bytes) (i : ℕ)
    → store s i (digit_char (n % 10)) ≡ ok s'
    → ltb 0 (n / 10) ≡ true
    → digits_loop (suc fuel) n 10 s i ≡ digits_loop fuel (n / 10) 10 s' (i + 1)
unfolding digits_loop
digits_loop_more fuel n s s' i h t = rw (h, t, digits_loop) refl

digits_loop_last :
    (fuel n : ℕ) (s s' : Bytes) (i : ℕ)
    → store s i (digit_char (n % 10)) ≡ ok s'
    → ltb 0 (n / 10) ≡ false
    → digits_loop (suc fuel) n 10 s i ≡ ok (s', i + 1)
unfolding digits_loop
digits_loop_last fuel n s s' i h t = rw (h, t, digits_loop) refl

-- The loop stores the digits behind what it has stored.
pub digits_loop_lem :
    (fuel n : ℕ) (pre post : Bytes) (i : ℕ)
    → n < fuel
    → length pre ≡ i
    → length (rev_digits fuel n) ≤ length post
    → digits_loop fuel n 10 (pre ++ post) i
      ≡ ok (
        pre ++ (rev_digits fuel n ++ drop (length (rev_digits fuel n)) post),
        i + length (rev_digits fuel n),
      )
digits_loop_lem zero n pre post i h e l = absurd (omega arith)
digits_loop_lem (suc fuel) n pre [] i h e l = absurd (omega (arith, length-rev_digits_pos fuel n))
digits_loop_lem (suc fuel) n pre (c ∷ post) i h e l =
    let d = digit_char (n % 10) in
    let stored = store_at (pre ++ c ∷ post) pre c d post i refl e in
    elim (Bool-cases (ltb 0 (n / 10))) [
      | inl t ↦
          let ds = rev_digits fuel (n / 10) in
          let more = rev_digits_more fuel n t in
          let rest =
            digits_loop_lem fuel (n / 10) (pre ++ d ∷ []) post (i + 1)
              (omega (arith, ltb→lt 0 (n / 10) t)) (length-append pre (d ∷ []) ∙ ap (λ k. k + 1) e)
              (omega (arith, ap length more)) in
          digits_loop_more fuel n (pre ++ c ∷ post) (pre ++ d ∷ post) i stored t
          ∙ ap (λ s. digits_loop fuel (n / 10) 10 s (i + 1)) (sym (append_assoc pre (d ∷ []) post))
          ∙ rest
          ∙ ap₂ (λ s k. ok (s, k)) (append_assoc pre (d ∷ []) (ds ++ drop (length ds) post))
              (omega arith)
          ∙ ap (λ r. ok (pre ++ (r ++ drop (length r) (c ∷ post)), i + length r)) (sym more)
      | inr t ↦
          digits_loop_last fuel n (pre ++ c ∷ post) (pre ++ d ∷ post) i stored t
          ∙ ap (λ r. ok (pre ++ (r ++ drop (length r) (c ∷ post)), i + length r))
              (sym (rev_digits_last fuel n t))
    ]
