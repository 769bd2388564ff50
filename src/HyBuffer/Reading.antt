-- ===== src/HyBuffer/Reading.antt =====
-- HyBuffer: `readFd`, `readAsString`, `clear` and `prepend`.
use hydrogen_web.Common.{
  ℕ, ◌+◌, ◌-◌, ◌≤◌, ◌<◌, ◌≡◌, refl, sym, ap, ap₂, ◌∙◌, [], ◌++◌, arith, length, take, drop,
  take-length_le, length-take, length-drop, drop-drop, drop-take, some, add_size, drop-take-append,
  take-append_add,
}
use hydrogen_web.Common.Bytes.{Bytes}
use hydrogen_web.Common.Fault.{ok, err, out_of_bounds}
use hydrogen_web.HyBuffer.{
  HyBuffer, writable_bytes, clear, clear_all, readable, read_as_string, prepend, read_fd,
}
use hydrogen_web.HyBuffer.Window.{
  IsValid, contents, length-contents, slice_lem, copy_to_lem, copy_to_err, length-copied,
}
use hydrogen_web.HyBuffer.Append.{written, written-IsValid, append_overruns}

-- `readFd` with data that fits behind the writer index: the data is appended to the readable bytes,
-- its number is returned, and the buffer stays valid.
pub read_fd_fits :
    {b : HyBuffer} (bytes : Bytes)
    → IsValid b
    → b.writer_index + length bytes ≤ length b.buffer
    → (read_fd b (some bytes) ≡ ok (written b bytes, some (length bytes)))
      × (contents (written b bytes) ≡ contents b ++ bytes)
      × IsValid (written b bytes)
unfolding read_fd
read_fd_fits {b} bytes v h =
    let w = written-IsValid bytes v h in
    (
      ground (
        arith,
        take-length_le (writable_bytes b) bytes,
        copy_to_lem b.buffer b.writer_index bytes,
      ),
      w.1,
      w.0,
    )

-- `readFd` into an empty buffer: one that the vector's rest does not hold is written outside of the
-- vector, unless it is more than twice that rest.
pub read_fd_overruns :
    {b : HyBuffer} (bytes : Bytes)
    → IsValid b
    → b.reader_index ≡ b.writer_index
    → length b.buffer < b.writer_index + length bytes
    → b.writer_index + length bytes ≤ length b.buffer + (length b.buffer - b.writer_index)
    → read_fd b (some bytes) ≡ err out_of_bounds
unfolding read_fd
read_fd_overruns {b} bytes v e h k = ground (
  arith,
  copy_to_lem b.buffer b.writer_index first,
  length-take (writable_bytes b) bytes,
  length-drop (writable_bytes b) bytes,
  length-copied b.buffer b.writer_index first,
  append_overruns {b = full} (drop (writable_bytes b) bytes) full-IsValid,
)
  where
    first : Bytes
    first = take (writable_bytes b) bytes

    full : HyBuffer
    full = record b {
      buffer =
          take b.writer_index b.buffer ++ (first ++ drop (b.writer_index + length first) b.buffer);
      writer_index = length b.buffer;
    }

    full-IsValid : IsValid full
    full-IsValid =
        omega
          (arith, length-copied b.buffer b.writer_index first, length-take (writable_bytes b) bytes)

-- `readFd` into a buffer that holds bytes already, when the kernel delivers more than the vector has
-- room for behind them: `iov_len` counts from the reader index, and the kernel's copy runs outside.
pub read_fd_overruns_held :
    {b : HyBuffer} (bytes : Bytes)
    → IsValid b
    → b.reader_index < b.writer_index
    → length b.buffer < b.writer_index + length bytes
    → read_fd b (some bytes) ≡ err out_of_bounds
unfolding read_fd
read_fd_overruns_held {b} bytes v e h = ground (
  arith,
  length-take (writable_bytes b) bytes,
  copy_to_err b.buffer b.writer_index (take (writable_bytes b) bytes),
)

-- The readable bytes of a valid buffer are read without a fault.
pub readable_lem : {b : HyBuffer} → IsValid b → readable b ≡ ok (contents b)
unfolding readable
readable_lem {b} v = slice_lem b.buffer b.reader_index b.writer_index v.order v.within

-- `clear(n)` of at most the readable bytes drops the first `n` of them and keeps the buffer valid.
pub clear_lem :
    {b : HyBuffer} (n : ℕ)
    → IsValid b
    → n ≤ length (contents b)
    → (contents (clear b n) ≡ drop n (contents b)) × IsValid (clear b n)
unfolding clear
clear_lem {b} n v h = (
  ap (λ k. take (b.writer_index - k) (drop k b.buffer)) index
      ∙ sym (
          drop-take n (b.writer_index - b.reader_index) (drop b.reader_index b.buffer)
          ∙ ap₂ take {x = b.writer_index - b.reader_index - n} left
              (drop-drop n b.reader_index b.buffer)),
  omega (arith, length-contents v),
)
  where
    index : add_size b.reader_index n ≡ b.reader_index + n
    index = omega (arith, length-contents v)

    left : b.writer_index - b.reader_index - n ≡ b.writer_index - (b.reader_index + n)
    left = omega arith

-- `readAsString` returns the readable bytes, and leaves a valid buffer with none.
pub read_as_string_lem :
    {b : HyBuffer}
    → IsValid b
    → (read_as_string b ≡ ok (contents b, clear_all b))
      × (contents (clear_all b) ≡ [])
      × IsValid (clear_all b)
unfolding read_as_string clear_all
read_as_string_lem {b} v =
    (rw (slice_lem b.buffer b.reader_index b.writer_index v.order v.within), refl, omega arith)

-- `prepend` of at most as many bytes as stand before the reader index puts them in front of the
-- readable bytes.
pub prepend_lem :
    {b : HyBuffer} (src : Bytes)
    → IsValid b
    → length src ≤ b.reader_index
    → (b' : HyBuffer) × (prepend b src ≡ ok b') × (contents b' ≡ src ++ contents b)
unfolding prepend
prepend_lem {b} src v h = (
  record b {
    buffer = take start b.buffer ++ (src ++ drop (start + length src) b.buffer);
    reader_index = start;
  },
  ground (arith, copy_to_lem b.buffer start src),
  window,
)
  where
    start : ℕ
    start = b.reader_index - length src

    window :
        take
          (b.writer_index - start)
          (drop start (take start b.buffer ++ (src ++ drop (start + length src) b.buffer)))
        ≡ src ++ contents b
    window =
        let e : start + length src ≡ b.reader_index = omega arith in
        let l : b.writer_index - start ≡ length src + (b.writer_index - b.reader_index) =
          omega arith in
        ap (take (b.writer_index - start)) (drop-take-append start b.buffer _ (omega arith))
        ∙ (ap (λ k. take (b.writer_index - start) (src ++ drop k b.buffer)) e
            ∙ (ap (λ k. take k (src ++ drop b.reader_index b.buffer)) l
                ∙ take-append_add (b.writer_index - b.reader_index) src
                    (drop b.reader_index b.buffer)))
