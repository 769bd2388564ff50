-- ===== src/HyBuffer.antt =====
-- include/core/HyBuffer.hpp and src/HyBuffer.cpp: the read/write buffer of a connection, a vector
-- with a reader index and a writer index. Pointers into the buffer are offsets from `payload()`; an
-- access outside the vector is the fault `out_of_bounds`. Index arithmetic is that of `size_t`.
pub mod Window
pub mod Append
pub mod Reading
pub mod Searching
use hydrogen_web.Common.{
  ℕ, zero, suc, ◌+◌, ◌-◌, ◌≤◌, Bool, true, false, ◌&&◌, Option, none, some, List, [], ◌∷◌, ◌++◌,
  length, take, drop, replicate, ltb, leb, ◌==◌, if◌then◌else◌, add_size, sub_size,
}
use hydrogen_web.Common.Bytes.{Bytes, index_of}
use hydrogen_web.Common.Fault.{Result, ok, err, out_of_bounds, assertion, guard, ◌>>=◌, ◌>>◌}

pub record HyBuffer : Type 0 where
  pub buffer : Bytes
  pub reader_index : ℕ
  pub writer_index : ℕ

abbrev pub prependable : ℕ
prependable = 8

abbrev pub initial_size : ℕ
initial_size = 1024

-- `HyBuffer()`
unfoldable pub empty_buffer : HyBuffer
empty_buffer = record {
  buffer = replicate (prependable + initial_size) 0;
  reader_index = prependable;
  writer_index = prependable;
}

abbrev pub prependable_bytes : HyBuffer → ℕ
prependable_bytes b = b.reader_index

abbrev pub readable_bytes : HyBuffer → ℕ
readable_bytes b = sub_size b.writer_index b.reader_index

-- As the source has it: from the reader index, not from the writer index.
abbrev pub writable_bytes : HyBuffer → ℕ
writable_bytes b = sub_size (length b.buffer) b.reader_index

unfoldable pub clear : HyBuffer → ℕ → HyBuffer
clear b n = record b { reader_index = add_size b.reader_index n }

-- `clearUntil(payload() + off)`
unfoldable pub clear_until : HyBuffer → ℕ → HyBuffer
unfolding clear
clear_until b off = clear b off

unfoldable pub clear_all : HyBuffer → HyBuffer
clear_all b = record b { reader_index = prependable; writer_index = prependable }

-- The bytes at the indices `lo` up to `hi` of a vector.
unfoldable pub slice : Bytes → ℕ → ℕ → Result Bytes
slice xs lo hi = do
  guard (leb lo hi && leb hi (length xs)) out_of_bounds
  ok (take (hi - lo) (drop lo xs))

-- `std::copy` of `src` to the index `i` of a vector.
unfoldable pub copy_to : Bytes → ℕ → Bytes → Result Bytes
copy_to xs i src = do
  guard (leb (i + length src) (length xs)) out_of_bounds
  ok (take i xs ++ (src ++ drop (i + length src) xs))

-- `vector::resize`
unfoldable pub resize : Bytes → ℕ → Bytes
resize xs n = take n xs ++ replicate (n - length xs) 0

-- The readable bytes, from `payload()` to the writer index.
unfoldable pub readable : HyBuffer → Result Bytes
unfolding slice
readable b = slice b.buffer b.reader_index b.writer_index

unfoldable pub read_as_string : HyBuffer → Result (Bytes × HyBuffer)
unfolding readable clear_all
read_as_string b = do content ← readable b; ok (content, clear_all b)

-- The branch of `reserve` that moves the readable bytes to the front.
unfoldable pub move_to_front : HyBuffer → Result HyBuffer
unfolding slice copy_to
move_to_front b = do
  moved ← slice b.buffer b.reader_index b.writer_index
  front ← copy_to b.buffer prependable moved
  ok (record {
    buffer = front;
    reader_index = prependable;
    writer_index = add_size prependable (readable_bytes b);
  })

-- The branch of `reserve` that grows the vector.
unfoldable pub grow : HyBuffer → ℕ → HyBuffer
unfolding resize
grow b n = record b { buffer = resize b.buffer (add_size b.writer_index n) }

unfoldable pub reserve : HyBuffer → ℕ → Result HyBuffer
unfolding grow move_to_front
reserve b n =
    if ltb (writable_bytes b) n
    then (if ltb (add_size (writable_bytes b) (prependable_bytes b)) (add_size n prependable)
        then ok (grow b n)
        else move_to_front b)
    else ok b

unfoldable pub append : HyBuffer → Bytes → Result HyBuffer
append b src = do
  b' ← reserve b (length src)
  filled ← copy_to b'.buffer b'.writer_index src
  ok (record b' { buffer = filled; writer_index = add_size b'.writer_index (length src) })

unfoldable pub prepend : HyBuffer → Bytes → Result HyBuffer
unfolding copy_to
prepend b src = do
  guard (leb (length src) (prependable_bytes b)) assertion
  filled ← copy_to b.buffer (b.reader_index - length src) src
  ok (record b { buffer = filled; reader_index = b.reader_index - length src })

-- The size of `readFd`'s buffer on the stack.
abbrev pub temp_size : ℕ
temp_size = 65536

-- `readFd`. `outcome` is what `readv` does: `none` for an error, and otherwise the bytes that it
-- delivers, the first `writable` of them at the writer index and the others to the stack. The number
-- returned is `n`, `none` for a negative one.
unfoldable pub read_fd : HyBuffer → Option Bytes → Result (HyBuffer × Option ℕ)
read_fd b none = ok (b, none)
read_fd b (some bytes) = do
  let writable = writable_bytes b
  filled ← copy_to b.buffer b.writer_index (take writable bytes)
  let b' : HyBuffer = record b { buffer = filled }
  if leb (length bytes) writable
      then ok
          (record b' { writer_index = add_size b.writer_index (length bytes) }, some (length bytes))
      else (append (record b' { writer_index = length b.buffer }) (drop writable bytes) >>= λ b''.
          ok (b'', some (length bytes)))

-- The offset of the first CRLF in a range.
unfoldable pub crlf_index : Bytes → Option ℕ
crlf_index [] = none
crlf_index (x ∷ []) = none
crlf_index (x ∷ y ∷ xs) =
    if x == 0x0d && y == 0x0a
    then some 0
    else elim (crlf_index (y ∷ xs)) [ none ↦ none | some i ↦ some (suc i) ]

unfoldable pub get_crlf : HyBuffer → Result (Option ℕ)
unfolding readable crlf_index
get_crlf b = do content ← readable b; ok (crlf_index content)

unfoldable pub get_and : HyBuffer → Result (Option ℕ)
unfolding readable index_of
get_and b = do content ← readable b; ok (index_of b'&' content)

unfoldable pub get_assignment : HyBuffer → Result (Option ℕ)
unfolding readable index_of
get_assignment b = do content ← readable b; ok (index_of b'=' content)

-- `getEOL()`, from `payload()`
abbrev pub get_eol : HyBuffer → ℕ
get_eol b = readable_bytes b
