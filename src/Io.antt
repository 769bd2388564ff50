-- ===== src/Io.antt =====
-- include/io/robustio.hpp and src/robustio.cpp: reads and writes that survive short counts and
-- interrupted calls. The kernel's `read` and `write` are parameters.
pub mod Reading
pub mod Buffered
pub mod Lines
pub mod Writing
use hydrogen_web.Common.{
  ℕ, zero, suc, ◌+◌, ◌-◌, Bool, true, false, Option, none, some, List, [], ◌∷◌, ◌++◌, length, take,
  drop, min, ◌==◌, if◌then◌else◌,
}
use hydrogen_web.Common.Bytes.{Bytes, bytes_eq}
use hydrogen_web.Common.Fault.{Result, ok, err, stuck, ◌>>=◌}

-- What `read` answers: the bytes that it stored, none at the end of the file, or -1, with whether
-- `errno` is EINTR.
pub data Reply : Type 0 where
  arrived : Bytes → Reply
  failed : Bool → Reply

-- What a call leaves: its value, `none` for -1, the bytes behind `usrbuf`, and the state of the rest.
pub record Done {ℓ} (A : Type ℓ) : Type ℓ where
  pub value : Option ℕ
  pub stored : Bytes
  pub rest : A

-- `Riob`: the bytes of its buffer that no one has taken, and the file. `_cnt` is their number.
pub record Riob {ℓ} (World : Type ℓ) : Type ℓ where
  pub held : Bytes
  pub file : World

abbrev pub new_riob {ℓ} : {World : Type ℓ} → World → Riob World
new_riob w = record { held = []; file = w }

abbrev pub buf_size : ℕ
buf_size = 8192

-- The copy at the end of `_read`.
abbrev pub hand_out {ℓ} : {World : Type ℓ} → ℕ → Riob World → Done (Riob World)
hand_out n r = record {
  value = some (min n (length r.held));
  stored = take (min n (length r.held)) r.held;
  rest = record r { held = drop (min n (length r.held)) r.held };
}

module _ {ℓ} {World : Type ℓ} (read : ℕ → World → Reply × World) where
  -- The loop of `readn`, on fuel: `n` is the number of bytes asked for, then come `nleft`, the bytes
  -- stored so far and the file.
  unfoldable pub readn_loop : ℕ → ℕ → ℕ → Bytes → World → Result (Done World)
  readn_loop n fuel zero stored w = ok (record { value = some n; stored = stored; rest = w })
  readn_loop n zero (suc nleft) stored w = err stuck
  readn_loop n (suc fuel) (suc nleft) stored w =
      let r = read (suc nleft) w in
      elim r.0 [
        | arrived bs ↦ elim bs [
          | [] ↦ ok (record { value = some (n - suc nleft); stored = stored; rest = r.1 })
          | b ∷ more ↦ readn_loop n fuel (suc nleft - suc (length more)) (stored ++ b ∷ more) r.1
        ]
        | failed again ↦ elim again [
          | true ↦ readn_loop n fuel (suc nleft) stored r.1
          | false ↦ ok (record { value = none; stored = stored; rest = r.1 })
        ]
      ]

  abbrev pub readn : ℕ → ℕ → World → Result (Done World)
  readn fuel n w = readn_loop n fuel n [] w

  -- The loop of `_read` that fills an empty buffer, on fuel.
  unfoldable pub refill : ℕ → ℕ → World → Result (Done (Riob World))
  refill zero n w = err stuck
  refill (suc fuel) n w =
      let r = read buf_size w in
      elim r.0 [
        | arrived bs ↦ elim bs [
          | [] ↦ ok (record { value = some 0; stored = []; rest = new_riob r.1 })
          | b ∷ more ↦ ok (hand_out n (record { held = b ∷ more; file = r.1 }))
        ]
        | failed again ↦ elim again [
          | true ↦ refill fuel n r.1
          | false ↦ ok (record { value = none; stored = []; rest = new_riob r.1 })
        ]
      ]

  -- `Riob::_read`.
  unfoldable pub _read : ℕ → ℕ → Riob World → Result (Done (Riob World))
  _read fuel n r = elim r.held [ b ∷ more ↦ ok (hand_out n r) | [] ↦ refill fuel n r.file ]

  -- The loop of `readlineb`: `left` is what remains of `maxlen` above `n`, and `fuel` is for each
  -- `_read`. A line that is not read whole has no terminating zero.
  unfoldable pub readlineb_loop : ℕ → ℕ → ℕ → Bytes → Riob World → Result (Done (Riob World))
  readlineb_loop fuel zero n stored r =
      ok (record { value = some n; stored = stored ++ 0 ∷ []; rest = r })
  readlineb_loop fuel (suc left) n stored r = _read fuel 1 r >>= λ d. elim d.value [
    | none ↦ ok (record { value = none; stored = stored; rest = d.rest })
    | some rc ↦ elim (rc == 0) [
      | true ↦
          if n == 1
          then ok (record { value = some 0; stored = stored; rest = d.rest })
          else ok (record { value = some n; stored = stored ++ 0 ∷ []; rest = d.rest })
      | false ↦ elim (bytes_eq d.stored (10 ∷ [])) [
        | true ↦
            ok (record { value = some n; stored = (stored ++ d.stored) ++ 0 ∷ []; rest = d.rest })
        | false ↦ readlineb_loop fuel left (n + 1) (stored ++ d.stored) d.rest
      ]
    ]
  ]

  -- `Riob::readlineb`
  abbrev pub readlineb : ℕ → ℕ → Riob World → Result (Done (Riob World))
  readlineb fuel maxlen r = readlineb_loop fuel (maxlen - 1) 1 [] r

  -- The loop of `readnb`: `fuel` is for each `_read`, `turns` for the loop. A `_read` that returns -1
  -- has met an `errno` that is not EINTR, and `readnb` gives up.
  unfoldable pub readnb_loop : ℕ → ℕ → ℕ → ℕ → Bytes → Riob World → Result (Done (Riob World))
  readnb_loop n fuel turns zero stored r = ok (record { value = some n; stored = stored; rest = r })
  readnb_loop n fuel zero (suc nleft) stored r = err stuck
  readnb_loop n fuel (suc turns) (suc nleft) stored r = _read fuel (suc nleft) r >>= λ d.
      elim d.value [
        | none ↦ ok (record { value = none; stored = stored; rest = d.rest })
        | some nread ↦ elim (nread == 0) [
          | true ↦ ok (record { value = some (n - suc nleft); stored = stored; rest = d.rest })
          | false ↦ readnb_loop n fuel turns (suc nleft - nread) (stored ++ d.stored) d.rest
        ]
      ]

  -- `Riob::readnb`
  abbrev pub readnb : ℕ → ℕ → Riob World → Result (Done (Riob World))
  readnb fuel n r = readnb_loop n fuel n n [] r

-- What `write` answers: how many of the bytes it took, or -1, with whether `errno` is EINTR.
pub data WriteReply : Type 0 where
  wrote : ℕ → WriteReply
  refused : Bool → WriteReply

module _ {ℓ} {World : Type ℓ} (write : Bytes → World → WriteReply × World) where
  -- The loop of `writen`, on fuel, with the bytes that are left. A count of 0 is taken for an error, so
  -- `interrupted`, whether `errno` is EINTR from an earlier call, decides what happens then.
  unfoldable pub writen_loop : ℕ → ℕ → Bool → Bytes → World → Result (Option ℕ × World)
  writen_loop n fuel interrupted [] w = ok (some n, w)
  writen_loop n zero interrupted (b ∷ bs) w = err stuck
  writen_loop n (suc fuel) interrupted (b ∷ bs) w =
      let r = write (b ∷ bs) w in
      elim r.0 [
        | wrote k ↦ elim k [
          | zero ↦ elim interrupted [
            | true ↦ writen_loop n fuel true (b ∷ bs) r.1
            | false ↦ ok (none, r.1)
          ]
          | suc j ↦ writen_loop n fuel interrupted (drop (suc j) (b ∷ bs)) r.1
        ]
        | refused again ↦ elim again [
          | true ↦ writen_loop n fuel true (b ∷ bs) r.1
          | false ↦ ok (none, r.1)
        ]
      ]

  abbrev pub writen : ℕ → Bool → Bytes → World → Result (Option ℕ × World)
  writen fuel interrupted bs w = writen_loop (length bs) fuel interrupted bs w
