-- ===== src/Sio.antt =====
-- include/io/sio.hpp and src/sio.cpp: printing without the standard library's buffers. The kernel's
-- `write` is a parameter.
pub mod Reversing
pub mod Digits
pub mod Printing
use hydrogen_web.Common.{
  ℕ, zero, suc, ◌+◌, ◌-◌, ◌/◌, ◌%◌, ◌^◌, Bool, true, false, Option, none, some, List, [], ◌∷◌, ◌++◌,
  ◌==◌, ltb, if◌then◌else◌, length, get_elem?, set, replicate, take,
}
use hydrogen_web.Common.Bytes.{Bytes, codes}
use hydrogen_web.Common.Int.{ℤ, pos, negsuc}
use hydrogen_web.Common.Fault.{Result, ok, err, out_of_bounds, overflow, stuck, guard, ◌>>=◌, ◌>>◌}

-- `s[i] = c` and `s[i]` for an array of characters.
abbrev pub store : Bytes → ℕ → ℕ → Result Bytes
store s i c = guard (ltb i (length s)) out_of_bounds >> ok (set s i c)

abbrev pub found : Option ℕ → Result ℕ
found none = err out_of_bounds
found (some c) = ok c

abbrev pub load : Bytes → ℕ → Result ℕ
load s i = found (get_elem? s i)

-- `_strlen`
unfoldable pub _strlen : Bytes → Result ℕ
_strlen [] = err out_of_bounds
_strlen (c ∷ cs) = elim (c == 0) [ true ↦ ok 0 | false ↦ _strlen cs >>= λ n. ok (n + 1) ]

-- The loop of `_reverse`, on fuel, with `i` and `j + 1`: at first `j` is -1 for an empty text.
unfoldable pub reverse_loop : ℕ → ℕ → ℕ → Bytes → Result Bytes
reverse_loop zero i end s = err stuck
reverse_loop (suc fuel) i end s = elim (ltb (i + 1) end) [
  | false ↦ ok s
  | true ↦ load s i >>= λ c. load s (end - 1) >>= λ d.
      store s i d >>= λ s'. store s' (end - 1) c >>= λ s''. reverse_loop fuel (i + 1) (end - 1) s''
]

unfoldable pub _reverse : Bytes → Result Bytes
_reverse s = _strlen s >>= λ n. reverse_loop (n + 1) 0 n s

-- The character of a digit.
abbrev pub digit_char : ℕ → ℕ
digit_char c = if ltb c 10 then c + b'0' else c - 10 + b'a'

-- The loop of `_ltoa`, on fuel. The digits come last one first.
unfoldable pub digits_loop : ℕ → ℕ → ℕ → Bytes → ℕ → Result (Bytes × ℕ)
digits_loop zero v b s i = err stuck
digits_loop (suc fuel) v b s i = store s i (digit_char (v % b)) >>= λ s'. elim (ltb 0 (v / b)) [
  | true ↦ digits_loop fuel (v / b) b s' (i + 1)
  | false ↦ ok (s', i + 1)
]

-- The end of `_ltoa`, behind the digits.
abbrev pub finish_ltoa : Bool → Bytes × ℕ → Result Bytes
finish_ltoa false r = store r.0 r.1 0 >>= _reverse
finish_ltoa true r = store r.0 r.1 b'-' >>= λ s. store s (r.1 + 1) 0 >>= _reverse

-- `_ltoa`; the negation of the least `long` overflows.
unfoldable pub _ltoa : ℤ → Bytes → ℕ → Result Bytes
_ltoa (pos n) s b = digits_loop (n + 1) n b s 0 >>= finish_ltoa false
_ltoa (negsuc n) s b =
    guard (ltb (n + 1) (2 ^ 63)) overflow
    >> (digits_loop (n + 2) (n + 1) b s 0 >>= finish_ltoa true)

module _ {ℓ} {World : Type ℓ} (write : Bytes → World → Option ℕ × World) where
  -- `prints`: the bytes before the terminator, in one call.
  unfoldable pub prints : Bytes → World → Result (Option ℕ × World)
  prints s w = _strlen s >>= λ n. ok (write (take n s) w)

  -- `printl`, in an array `s` of 128 characters.
  unfoldable pub printl : ℤ → Bytes → World → Result (Option ℕ × World)
  printl v s w = _ltoa v s 10 >>= λ text. prints text w

  -- An error is printed in its turn, without a second try.
  abbrev pub with_error : Bytes → Option ℕ × World → Result (Option ℕ × World)
  with_error msg (some n, w) = ok (some n, w)
  with_error msg (none, w) = prints msg w >>= λ r. ok (none, r.1)

  -- `Prints` and `Printl`
  unfoldable pub print_text : Bytes → World → Result (Option ℕ × World)
  print_text s w = prints s w >>= with_error (codes "Prints error" ++ 0 ∷ [])

  unfoldable pub print_long : ℤ → Bytes → World → Result (Option ℕ × World)
  print_long v s w = printl v s w >>= with_error (codes "Printl error" ++ 0 ∷ [])
