-- ===== src/HyBuffer/Searching.antt =====
-- HyBuffer: the searches `getCRLF`, `getAND` and `getAssignment` on a valid buffer.
use hydrogen_web.Common.{
  ℕ, zero, suc, ◌≤◌, ◌≡◌, refl, none, some, [], ◌∷◌, ◌++◌, arith, length, drop,
}
use hydrogen_web.Common.Bytes.{Bytes, Free, index_of}
use hydrogen_web.Common.Fault.{ok}
use hydrogen_web.HyBuffer.{HyBuffer, crlf_index, get_crlf, get_and, get_assignment}
use hydrogen_web.HyBuffer.Window.{IsValid, contents}
use hydrogen_web.HyBuffer.Reading.{readable_lem}

abbrev pub crlf : Bytes
crlf = 0x0d ∷ 0x0a ∷ []

-- On a valid buffer the searches see the readable bytes alone, and do not fault.
pub get_crlf_lem :
    {b : HyBuffer}
    → IsValid b
    → (get_crlf b ≡ ok (crlf_index (contents b)))
      × (get_and b ≡ ok (index_of b'&' (contents b)))
      × (get_assignment b ≡ ok (index_of b'=' (contents b)))
unfolding get_crlf get_and get_assignment
get_crlf_lem {b} v = ground (arith, readable_lem v)

-- A line that holds no CR is found up to its CRLF.
pub crlf_index-append :
    (line rest : Bytes) → Free 0x0d line → crlf_index (line ++ (crlf ++ rest)) ≡ some (length line)
unfolding crlf_index
crlf_index-append [] rest h = refl
crlf_index-append (x ∷ []) rest h = ground arith
crlf_index-append (x ∷ y ∷ line) rest h = ground (arith, crlf_index-append (y ∷ line) rest h.1)

-- Bytes without a CR hold no CRLF.
pub crlf_index-Free : (xs : Bytes) → Free 0x0d xs → crlf_index xs ≡ none
unfolding crlf_index
crlf_index-Free [] h = refl
crlf_index-Free (x ∷ []) h = refl
crlf_index-Free (x ∷ y ∷ xs) h = ground (arith, crlf_index-Free (y ∷ xs) h.1)

-- What is found is a CRLF inside the range.
pub crlf_index-found :
    (xs : Bytes) (i : ℕ)
    → crlf_index xs ≡ some i
    → (suc (suc i) ≤ length xs) × (drop i xs ≡ crlf ++ drop (suc (suc i)) xs)
unfolding crlf_index
crlf_index-found [] i h = cc
crlf_index-found (x ∷ []) i h = cc
crlf_index-found (x ∷ y ∷ xs) zero h = ground arith
crlf_index-found (x ∷ y ∷ xs) (suc i) h = ground (arith, crlf_index-found (y ∷ xs) i)
