-- ===== src/HyBuffer/Window.antt =====
-- HyBuffer: validity, the queue of the readable bytes, and copies as operations on that queue.
use hydrogen_web.Common.{
  ℕ, ◌+◌, ◌-◌, ◌≤◌, ◌<◌, ◌^◌, ◌≡◌, ap, ◌∙◌, ◌⊎◌, ◌++◌, arith, length, take, drop, length-append,
  length-take, length-drop, drop-take, take-append_add, take-append_self, drop-append_le,
  length-take_le,
}
use hydrogen_web.Common.Bytes.{Bytes}
use hydrogen_web.Common.Fault.{ok, err, out_of_bounds}
use hydrogen_web.HyBuffer.{HyBuffer, prependable, slice, copy_to}

-- What every operation keeps: the indices are in order and inside the vector, the reader index has
-- not moved below the first 8 bytes, and the vector is no larger than `max_size()`.
pub record IsValid (b : HyBuffer) : Type 0 where
  pub front : prependable ≤ b.reader_index
  pub order : b.reader_index ≤ b.writer_index
  pub within : b.writer_index ≤ length b.buffer
  pub small : length b.buffer < 2 ^ 63

-- The queue of bytes that a buffer stands for.
abbrev pub contents : HyBuffer → Bytes
contents b = take (b.writer_index - b.reader_index) (drop b.reader_index b.buffer)

-- Where `append` writes inside the vector: behind the writer index without a change, after a
-- resize, or after the move to the front.
abbrev pub Fits : HyBuffer → ℕ → Type 0
Fits b n =
    (b.writer_index + n ≤ length b.buffer)
    ⊎ (length b.buffer < prependable + n)
    ⊎ ((length b.buffer < b.reader_index + n)
        × (b.writer_index + n + prependable ≤ length b.buffer + b.reader_index))

pub length-contents :
    {b : HyBuffer} → IsValid b → length (contents b) ≡ b.writer_index - b.reader_index
length-contents {b} v =
    length-take_le _ (drop b.reader_index b.buffer)
      (omega (arith, length-drop b.reader_index b.buffer))

pub slice_lem :
    (xs : Bytes) (lo hi : ℕ)
    → lo ≤ hi
    → hi ≤ length xs
    → slice xs lo hi ≡ ok (take (hi - lo) (drop lo xs))
unfolding slice
slice_lem xs lo hi h k = ground arith

pub copy_to_lem :
    (xs : Bytes) (i : ℕ) (src : Bytes)
    → i + length src ≤ length xs
    → copy_to xs i src ≡ ok (take i xs ++ (src ++ drop (i + length src) xs))
unfolding copy_to
copy_to_lem xs i src h = ground arith

-- A copy within the vector leaves its length alone.
pub length-copied :
    (xs : Bytes) (i : ℕ) (src : Bytes)
    → i + length src ≤ length xs
    → length (take i xs ++ (src ++ drop (i + length src) xs)) ≡ length xs
length-copied xs i src h = omega (
  arith,
  length-append (take i xs) (src ++ drop (i + length src) xs),
  length-append src (drop (i + length src) xs),
  length-take i xs,
  length-drop (i + length src) xs,
)

-- The window from `r` to the end of a copy at `w`.
pub window-copied :
    (xs : Bytes) (r w : ℕ) (src rest : Bytes)
    → r ≤ w
    → w ≤ length xs
    → take (w + length src - r) (drop r (take w xs ++ (src ++ rest)))
      ≡ take (w - r) (drop r xs) ++ src
window-copied xs r w src rest h k =
    let e : w + length src - r ≡ length (take (w - r) (drop r xs)) + length src =
      omega (arith, length-take_le (w - r) (drop r xs), length-drop r xs) in
    ap (take (w + length src - r)) (
      drop-append_le r (take w xs) (src ++ rest) (omega (arith, length-take_le w xs k))
      ∙ ap (λ t. t ++ (src ++ rest)) (drop-take r w xs))
    ∙ (ap (λ n. take n (take (w - r) (drop r xs) ++ (src ++ rest))) e
        ∙ (take-append_add (length src) (take (w - r) (drop r xs)) (src ++ rest)
            ∙ ap (λ t. take (w - r) (drop r xs) ++ t) (take-append_self src rest)))

pub copy_to_err :
    (xs : Bytes) (i : ℕ) (src : Bytes)
    → length xs < i + length src
    → copy_to xs i src ≡ err out_of_bounds
unfolding copy_to
copy_to_err xs i src h = ground arith
