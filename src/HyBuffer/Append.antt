-- ===== src/HyBuffer/Append.antt =====
-- HyBuffer: `reserve`, `append` and `prepend` against the queue of the readable bytes.
use native.Mathlib.Decide.{dec_lt}
use hydrogen_web.Common.{
  ℕ, ◌+◌, ◌-◌, ◌≤◌, ◌<◌, ◌^◌, ◌≡◌, refl, sym, ap, subst, ◌∙◌, ◌⊎◌, inl, inr, ◌++◌, arith, length,
  take, drop, replicate, length-append, length-drop, length-replicate, take-append_le,
  drop-append_le, take-length_le, add_size,
}
use hydrogen_web.Common.Bytes.{Bytes}
use hydrogen_web.Common.Fault.{ok, err, out_of_bounds, ok-injective}
use hydrogen_web.HyBuffer.{
  HyBuffer, prependable, readable_bytes, resize, grow, move_to_front, reserve, append,
}
use hydrogen_web.HyBuffer.Window.{
  IsValid, contents, Fits, length-contents, slice_lem, copy_to_lem, copy_to_err, length-copied,
  window-copied,
}

-- The buffer after `move_to_front`.
moved : HyBuffer → HyBuffer
moved b = record {
  buffer =
      take prependable b.buffer
      ++ (contents b ++ drop (prependable + length (contents b)) b.buffer);
  reader_index = prependable;
  writer_index = add_size prependable (readable_bytes b);
}

move_to_front_lem : {b : HyBuffer} → IsValid b → move_to_front b ≡ ok (moved b)
unfolding move_to_front moved
move_to_front_lem {b} v = ground (
  arith,
  slice_lem b.buffer b.reader_index b.writer_index,
  copy_to_lem b.buffer prependable (contents b),
  length-contents v,
)

-- What `reserve` does for `n` bytes that fit: the same queue, with room behind it.
record Reserved (b : HyBuffer) (n : ℕ) (b' : HyBuffer) : Type 0 where
  returned : reserve b n ≡ ok b'
  valid : IsValid b'
  same : contents b' ≡ contents b
  room : b'.writer_index + n ≤ length b'.buffer

reserve_moves :
    {b : HyBuffer} (n : ℕ)
    → IsValid b
    → prependable + n ≤ length b.buffer
    → length b.buffer < b.reader_index + n
    → reserve b n ≡ ok (moved b)
unfolding reserve
reserve_moves {b} n v h k = ground (arith, move_to_front_lem v)

reserve_stays :
    {b : HyBuffer} (n : ℕ) → IsValid b → b.reader_index + n ≤ length b.buffer → reserve b n ≡ ok b
unfolding reserve
reserve_stays {b} n v h = ground arith

moved-Reserved :
    {b : HyBuffer} (n : ℕ)
    → IsValid b
    → prependable + n ≤ length b.buffer
    → length b.buffer < b.reader_index + n
    → b.writer_index + n + prependable ≤ length b.buffer + b.reader_index
    → Reserved b n (moved b)
unfolding moved
moved-Reserved {b} n v h k l = record {
  returned = reserve_moves n v h k;
  valid = ground (arith, length-copied b.buffer prependable (contents b), length-contents v);
  same = same_moved;
  room = ground (arith, length-copied b.buffer prependable (contents b), length-contents v);
}
  where
    index : (moved b).writer_index - prependable ≡ prependable + length (contents b) - prependable
    index = omega (arith, length-contents v)

    same_moved : contents (moved b) ≡ contents b
    same_moved =
        ap (λ k. take k (drop prependable (moved b).buffer)) index
        ∙ window-copied b.buffer prependable prependable (contents b) _ (omega arith) (omega arith)

resize_lem : (xs : Bytes) (m : ℕ) → length xs ≤ m → resize xs m ≡ xs ++ replicate (m - length xs) 0
unfolding resize
resize_lem xs m h = rw (take-length_le m xs h)

grow_lem :
    {b : HyBuffer} (n : ℕ)
    → IsValid b
    → length b.buffer < prependable + n
    → b.writer_index + n < 2 ^ 63
    → grow b n
      ≡ record b { buffer = b.buffer ++ replicate (b.writer_index + n - length b.buffer) 0 }
unfolding grow
grow_lem {b} n v h k =
    let e : add_size b.writer_index n ≡ b.writer_index + n = omega arith in
    ap (λ t. record b { buffer = t })
      (ap (resize b.buffer) e ∙ resize_lem b.buffer (b.writer_index + n) (omega arith))

grow-Reserved :
    {b : HyBuffer} (n : ℕ)
    → IsValid b
    → length b.buffer < prependable + n
    → b.writer_index + n < 2 ^ 63
    → Reserved b n (grow b n)
unfolding reserve
grow-Reserved {b} n v h k = record {
  returned = ground arith;
  valid = ground (arith, grow_lem n v h k, size);
  same = ap contents (grow_lem n v h k) ∙ same_grown;
  room = ground (arith, grow_lem n v h k, size);
}
  where
    fill : Bytes
    fill = replicate (b.writer_index + n - length b.buffer) 0

    size : length (b.buffer ++ fill) ≡ b.writer_index + n
    size = omega (
      arith,
      length-append b.buffer fill,
      length-replicate {A = ℕ} (b.writer_index + n - length b.buffer) 0,
    )

    same_grown :
        take (b.writer_index - b.reader_index) (drop b.reader_index (b.buffer ++ fill)) ≡ contents b
    same_grown =
        ap (take (b.writer_index - b.reader_index))
          (drop-append_le b.reader_index b.buffer fill (omega arith))
        ∙ take-append_le (b.writer_index - b.reader_index) (drop b.reader_index b.buffer) fill
            (omega (arith, length-drop b.reader_index b.buffer))

reserve-Reserved :
    {b : HyBuffer} (n : ℕ)
    → IsValid b
    → b.writer_index + n < 2 ^ 63
    → Fits b n
    → (b' : HyBuffer) × Reserved b n b'
reserve-Reserved {b} n v k (inl h) =
    (b, record { returned = reserve_stays n v (omega arith); valid = v; same = refl; room = h })
reserve-Reserved {b} n v k (inr (inl h)) = (grow b n, grow-Reserved n v h k)
reserve-Reserved {b} n v k (inr (inr (h, l))) = elim (dec_lt (length b.buffer) (prependable + n)) [
  | yes small ↦ (grow b n, grow-Reserved n v small k)
  | no large ↦ (moved b, moved-Reserved n v (omega arith) h l)
]

-- A copy to the writer index of a valid buffer with room.
abbrev pub written : HyBuffer → Bytes → HyBuffer
written b src = record b {
  buffer = take b.writer_index b.buffer ++ (src ++ drop (b.writer_index + length src) b.buffer);
  writer_index = b.writer_index + length src;
}

pub written-IsValid :
    {b : HyBuffer} (src : Bytes)
    → IsValid b
    → b.writer_index + length src ≤ length b.buffer
    → IsValid (written b src) × (contents (written b src) ≡ contents b ++ src)
written-IsValid {b} src v h = (
  ground (arith, length-copied b.buffer b.writer_index src),
  window-copied b.buffer b.reader_index b.writer_index src _ v.order v.within,
)

append-written :
    {b b' : HyBuffer} (src : Bytes)
    → Reserved b (length src) b'
    → append b src ≡ ok (written b' src)
unfolding append
append-written {b} {b'} src r =
    ground (arith, r.returned, r.valid, r.room, copy_to_lem b'.buffer b'.writer_index src)

-- An append that fits succeeds: the readable bytes are those before, then the ones appended, and
-- the buffer stays valid.
pub append-Fits :
    {b : HyBuffer} (src : Bytes)
    → IsValid b
    → b.writer_index + length src < 2 ^ 63
    → Fits b (length src)
    → (b' : HyBuffer) × (append b src ≡ ok b') × (contents b' ≡ contents b ++ src) × IsValid b'
append-Fits {b} src v k f =
    let (b', r) = reserve-Reserved (length src) v k f in
    let w = written-IsValid src r.valid r.room in
    (written b' src, append-written src r, w.1 ∙ ap (λ t. t ++ src) r.same, w.0)

-- An append that does not fit writes outside the vector.
pub append_overruns :
    {b : HyBuffer} (src : Bytes)
    → IsValid b
    → ¬ Fits b (length src)
    → append b src ≡ err out_of_bounds
unfolding append moved
append_overruns {b} src v f = elim (dec_lt (length b.buffer) (b.reader_index + length src)) [
  | yes far ↦ ground (
    arith,
    reserve_moves (length src) v,
    copy_to_err (moved b).buffer (moved b).writer_index src,
    length-contents v,
    length-copied b.buffer prependable (contents b),
  )
  | no near ↦ ground (arith, reserve_stays (length src) v, copy_to_err b.buffer b.writer_index src)
]

Fits-cases : (b : HyBuffer) (n : ℕ) → Fits b n ⊎ ¬ Fits b n
Fits-cases b n = elim (dec_lt (length b.buffer) (b.writer_index + n)) [
  | no near ↦ inl (inl (omega arith))
  | yes over ↦ elim (dec_lt (length b.buffer) (prependable + n)) [
    | yes small ↦ inl (inr (inl small))
    | no large ↦ elim (dec_lt (length b.buffer) (b.reader_index + n)) [
      | no stays ↦ inr (λ f. omega arith)
      | yes moves ↦
          elim (dec_lt (length b.buffer + b.reader_index) (b.writer_index + n + prependable)) [
            | yes far ↦ inr (λ f. omega arith)
            | no close ↦ inl (inr (inr (moves, omega arith)))
          ]
    ]
  ]
]

-- An append that has come back fits.
pub append-ok :
    {b b' : HyBuffer} (src : Bytes)
    → IsValid b
    → b.writer_index + length src < 2 ^ 63
    → append b src ≡ ok b'
    → (contents b' ≡ contents b ++ src) × IsValid b'
append-ok {b} {b'} src v k run = elim (Fits-cases b (length src)) [
  | inl f ↦
      let (d, h, c, w) = append-Fits src v k f in
      let e : d ≡ b' = ok-injective (sym h ∙ run) in
      subst (λ x. (contents x ≡ contents b ++ src) × IsValid x) e (c, w)
  | inr f ↦ let e : err out_of_bounds ≡ ok b' = sym (append_overruns src v f) ∙ run in cc
]

-- An append with room behind the writer index writes there.
pub append_here :
    {b : HyBuffer} (src : Bytes)
    → IsValid b
    → b.writer_index + length src ≤ length b.buffer
    → append b src ≡ ok (written b src)
append_here {b} src v h = append-written src (record {
  returned = reserve_stays (length src) v (omega arith);
  valid = v;
  same = refl;
  room = h;
})
