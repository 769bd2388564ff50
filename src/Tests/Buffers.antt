-- ===== src/Tests/Buffers.antt =====
-- Tests of include/core/HyBuffer.hpp and src/HyBuffer.cpp.
use hydrogen_web.Common.{◌≡◌, inl, inr, some, ◌++◌, arith, length, replicate}
use hydrogen_web.Common.Bytes.{Bytes, codes}
use hydrogen_web.Common.Fault.{ok, err, out_of_bounds}
use hydrogen_web.HyBuffer.{HyBuffer, append, read_fd}
use hydrogen_web.HyBuffer.Window.{IsValid, contents, Fits}
use hydrogen_web.HyBuffer.Append.{append-Fits, append_overruns, written}
use hydrogen_web.HyBuffer.Reading.{read_fd_fits}

-- A small buffer that holds `abcd`, and one that holds nothing.
abbrev held : HyBuffer
held = record {
  buffer = replicate 8 0 ++ (codes "abcd" ++ replicate 12 0);
  reader_index = 8;
  writer_index = 12;
}

abbrev empty : HyBuffer
empty = record { buffer = replicate 24 0; reader_index = 8; writer_index = 8 }

held-IsValid : IsValid held
held-IsValid = record {
  front = omega arith;
  order = omega arith;
  within = omega arith;
  small = omega arith;
}

empty-IsValid : IsValid empty
empty-IsValid = record {
  front = omega arith;
  order = omega arith;
  within = omega arith;
  small = omega arith;
}

abbrev fourteen : Bytes
fourteen = codes "0123456789abcd"

held_is_full : ¬ Fits held (length fourteen)
held_is_full (inl h) = absurd (omega arith)
held_is_full (inr (inl h)) = absurd (omega arith)
held_is_full (inr (inr h)) = absurd (omega (arith, h.0))

append-Fits_example :
    (b : HyBuffer) × (append held (codes "xy") ≡ ok b)
    × (contents b ≡ contents held ++ codes "xy")
    × IsValid b
append-Fits_example = append-Fits (codes "xy") held-IsValid (omega arith) (inl (omega arith))

append_overruns_example : append held fourteen ≡ err out_of_bounds
append_overruns_example = append_overruns fourteen held-IsValid held_is_full

read_fd_fits_example :
    (read_fd held (some (codes "xy")) ≡ ok (written held (codes "xy"), some 2))
    × (contents (written held (codes "xy")) ≡ contents held ++ codes "xy")
    × IsValid (written held (codes "xy"))
read_fd_fits_example = read_fd_fits (codes "xy") held-IsValid (omega arith)
