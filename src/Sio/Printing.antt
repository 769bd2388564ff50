-- ===== src/Sio/Printing.antt =====
-- sio: `Printl` prints a number as `decimal` does.
use mathlib.Core.List.{reverse, reverse-cons, reverse-append}
use hydrogen_web.Common.{
  ℕ, zero, suc, ◌+◌, ◌^◌, ◌≤◌, ◌<◌, ◌≡◌, refl, sym, ap, ◌∙◌, true, false, Option, [], ◌∷◌, ◌++◌,
  lt→ltb, arith, length, length-append, length-drop, drop, append_assoc, append-nil,
  take-append_self,
}
use hydrogen_web.Common.Bytes.{Bytes, Free, Free-snoc}
use hydrogen_web.Common.Int.{ℤ, pos, negsuc}
use hydrogen_web.Common.Decimal.{decimal}
use hydrogen_web.Common.Fault.{ok}
use hydrogen_web.Sio.{digits_loop, finish_ltoa, _ltoa, prints, printl}
use hydrogen_web.Sio.Reversing.{store_at, strlen_lem, reverse_lem}
use hydrogen_web.Sio.Digits.{
  rev_digits, rev_digits-Free, length-rev_digits, digits_loop_lem, digits_onto-rev_digits,
}

-- The text of a number: its digits, behind a minus sign if it is negative.
abbrev pub text_of : ℤ → Bytes
text_of (pos n) = decimal n
text_of (negsuc n) = b'-' ∷ decimal (n + 1)

-- The numbers of type `long` that have a negation.
abbrev pub IsSymmetric : ℤ → Type 0
IsSymmetric (pos n) = n < 2 ^ 63
IsSymmetric (negsuc n) = n + 1 < 2 ^ 63

Free-reverse : (c : ℕ) (xs : Bytes) → Free c xs → Free c (reverse xs)
Free-reverse c [] h = tt
Free-reverse c (x ∷ xs) h =
    rw (reverse-cons x xs) (Free-snoc c (reverse xs) x (Free-reverse c xs h.1) h.0)

decimal-rev_digits : (n : ℕ) → decimal n ≡ reverse (rev_digits (n + 1) n)
unfolding decimal
decimal-rev_digits n =
    let e : suc n ≡ n + 1 = omega arith in
    digits_onto-rev_digits (suc n) n [] (omega arith)
    ∙ append-nil (reverse (rev_digits (suc n) n))
    ∙ ap (λ f. reverse (rev_digits f n)) e

drop_cons : (k : ℕ) (s : Bytes) → k < length s → (c : ℕ) × (r : Bytes) × (drop k s ≡ c ∷ r)
drop_cons k [] h = absurd (omega arith)
drop_cons zero (c ∷ s) h = (c, s, refl)
drop_cons (suc k) (c ∷ s) h = drop_cons k s (omega arith)

-- The digits of a number of type `long`, and the array behind them.
module _ (n : ℕ) (s : Bytes) (small : n < 2 ^ 63) (room : length s ≡ 128) where
  abbrev ds : Bytes
  ds = rev_digits (n + 1) n

  few : length ds ≤ 19
  few = length-rev_digits (n + 1) n 18 (omega arith)

  looped : digits_loop (n + 1) n 10 s 0 ≡ ok (ds ++ drop (length ds) s, 0 + length ds)
  looped = digits_loop_lem (n + 1) n [] s 0 (omega arith) refl (omega (arith, few))

  finished :
      (r : Bytes) × (finish_ltoa false (ds ++ drop (length ds) s, 0 + length ds)
        ≡ ok (decimal n ++ 0 ∷ r))
  finished =
      let (c, r, e) = drop_cons (length ds) s (omega (arith, few)) in
      (
        r,
        rw
            (store_at (ds ++ drop (length ds) s) ds c 0 r (0 + length ds)
              (ap (λ l. ds ++ l) (sym e)) (omega arith))
            (reverse_lem ds r (rev_digits-Free (n + 1) n)
              ∙ ap (λ l. ok (l ++ 0 ∷ r)) (sym (decimal-rev_digits n))),
      )

  finished_negative :
      (r : Bytes) × (finish_ltoa true (ds ++ drop (length ds) s, 0 + length ds)
        ≡ ok ((b'-' ∷ decimal n) ++ 0 ∷ r))
  finished_negative =
      let k = length ds in
      let (c, t, e) = drop_cons k s (omega (arith, few)) in
      let more : length t + k + 1 ≡ 128 = omega (arith, few, ap length e, length-drop k s) in
      let (d, r, f) = drop_cons 0 t (omega (arith, few)) in
      (
        r,
        rw
            (
              store_at (ds ++ drop k s) ds c b'-' t (0 + k) (ap (λ l. ds ++ l) (sym e))
                  (omega arith),
              store_at (ds ++ b'-' ∷ t) (ds ++ b'-' ∷ []) d 0 r (0 + k + 1)
                  (append_assoc ds (b'-' ∷ []) (d ∷ r) ∙ ap (λ l. ds ++ b'-' ∷ l) (sym f))
                  (length-append ds (b'-' ∷ []) ∙ omega arith),
            )
            (reverse_lem (ds ++ b'-' ∷ []) r
                (Free-snoc 0 ds b'-' (rev_digits-Free (n + 1) n) (λ e. cc))
              ∙ ap (λ l. ok (l ++ 0 ∷ r))
                  (reverse-append ds (b'-' ∷ [])
                    ∙ ap (λ l. b'-' ∷ l) (sym (decimal-rev_digits n)))),
      )

-- `_ltoa` in base 10 leaves the text of the number and its terminator.
pub ltoa_lem :
    (v : ℤ) (s : Bytes)
    → IsSymmetric v
    → length s ≡ 128
    → (r : Bytes) × (_ltoa v s 10 ≡ ok (text_of v ++ 0 ∷ r))
unfolding _ltoa
ltoa_lem (pos n) s h e = let (r, f) = finished n s h e in (r, rw (looped n s h e) f)
ltoa_lem (negsuc n) s h e =
    let (r, f) = finished_negative (n + 1) s h e in
    let k : n + 1 + 1 ≡ n + 2 = omega arith in
    (r, rw (lt→ltb (n + 1) (2 ^ 63) h, ← k, looped (n + 1) s h e) f)

decimal-Free : (n : ℕ) → Free 0 (decimal n)
decimal-Free n =
    rw (decimal-rev_digits n) (Free-reverse 0 (rev_digits (n + 1) n) (rev_digits-Free (n + 1) n))

text_of-Free : (v : ℤ) → Free 0 (text_of v)
text_of-Free (pos n) = decimal-Free n
text_of-Free (negsuc n) = (λ e. cc, decimal-Free (n + 1))

-- `printl` of every number of type `long` but the least writes exactly its text, in one call, and never
-- outside of its array: `decimal`, behind a minus sign for a negative one.
pub printl-text_of {ℓ} :
    {World : Type ℓ} (write : Bytes → World → Option ℕ × World) (v : ℤ) (s : Bytes) (w : World)
    → IsSymmetric v
    → length s ≡ 128
    → printl write v s w ≡ ok (write (text_of v) w)
unfolding printl prints
printl-text_of write v s w h e =
    let (r, f) = ltoa_lem v s h e in
    rw (f, strlen_lem (text_of v) r (text_of-Free v))
      (ap (λ t. ok (write t w)) (take-append_self (text_of v) (0 ∷ r)))
