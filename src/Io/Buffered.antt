-- ===== src/Io/Buffered.antt =====
-- src/robustio.cpp: `Riob::_read` hands out the bytes of the file in their order.
use hydrogen_web.Common.{
  ℕ, zero, suc, ◌≤◌, ◌<◌, ◌≡◌, refl, sym, ap, ◌∙◌, true, false, none, some, [], ◌∷◌, ◌++◌, arith,
  min, take, drop, length, length-take, take-append-drop, append_assoc,
}
use hydrogen_web.Common.Bytes.{Bytes}
use hydrogen_web.Common.Fault.{Result, ok}
use hydrogen_web.Io.{
  Reply, arrived, failed, Done, Riob, new_riob, buf_size, hand_out, refill, _read,
}
use hydrogen_web.Io.Reading.{IsFile, Refused}

module _ {ℓ} {World : Type ℓ} (read : ℕ → World → Reply × World) (stream : World → Bytes)
    (patience : World → ℕ) where
  -- The bytes that are still to come: those held, and those of the file.
  abbrev pub coming : Riob World → Bytes
  coming r = r.held ++ stream r.file

  -- What a `_read` of up to `n` bytes leaves.
  pub data Hands (n : ℕ) (r : Riob World) : Result (Done (Riob World)) → Type ℓ where
    handed :
        (d : Done (Riob World)) (b : ℕ) (bs : Bytes)
        → d.stored ≡ b ∷ bs
        → d.value ≡ some (suc (length bs))
        → suc (length bs) ≤ n
        → coming r ≡ (b ∷ bs) ++ coming d.rest
        → patience d.rest.file ≤ patience r.file
        → Hands n r (ok d)
    at_end :
        (d : Done (Riob World))
        → d.stored ≡ []
        → d.value ≡ some 0
        → coming r ≡ []
        → coming d.rest ≡ []
        → Hands n r (ok d)
    gave_up :
        (d : Done (Riob World))
        → d.stored ≡ []
        → d.value ≡ none
        → coming r ≡ coming d.rest
        → Refused read stream d.rest.file
        → Hands n r (ok d)

  hand_out-Hands :
      (m : ℕ) (r : Riob World) (b : ℕ) (more : Bytes) (w : World)
      → coming r ≡ b ∷ (more ++ stream w)
      → patience w ≤ patience r.file
      → Hands (suc m) r (ok (hand_out (suc m) (record { held = b ∷ more; file = w })))
  hand_out-Hands m r b more w e p =
      let k : min (suc m) (suc (length more)) ≡ suc (min m (length more)) = omega arith in
      let len : length (take (min m (length more)) more) ≡ min m (length more) =
        length-take (min m (length more)) more ∙ omega arith in
      rw (k) (
        handed _ b (take (min m (length more)) more) refl (ap (λ n. some (suc n)) (sym len))
          (omega (arith, len))
          (e
            ∙ ap (λ t. b ∷ t)
                (ap (λ t. t ++ stream w) (sym (take-append-drop (min m (length more)) more))
                  ∙ append_assoc (take (min m (length more)) more) (drop (min m (length more)) more)
                      (stream w)))
          p)

  refill_data :
      (fuel n : ℕ) (w w' : World) (b : ℕ) (bs : Bytes)
      → read buf_size w ≡ (arrived (b ∷ bs), w')
      → refill read (suc fuel) n w ≡ ok (hand_out n (record { held = b ∷ bs; file = w' }))
  unfolding refill
  refill_data fuel n w w' b bs h =
      rw (h, refill) (ap (λ r. ok (hand_out n (record { held = b ∷ bs; file = r.1 }))) h)

  refill_end :
      (fuel n : ℕ) (w w' : World)
      → read buf_size w ≡ (arrived [], w')
      → refill read (suc fuel) n w ≡ ok (record { value = some 0; stored = []; rest = new_riob w' })
  unfolding refill
  refill_end fuel n w w' h =
      rw (h, refill) (ap (λ r. ok (record { value = some 0; stored = []; rest = new_riob r.1 })) h)

  refill_again :
      (fuel n : ℕ) (w w' : World)
      → read buf_size w ≡ (failed true, w')
      → refill read (suc fuel) n w ≡ refill read fuel n w'
  unfolding refill
  refill_again fuel n w w' h = rw (h, refill) (ap (λ r. refill read fuel n r.1) h)

  refill_failed :
      (fuel n : ℕ) (w w' : World)
      → read buf_size w ≡ (failed false, w')
      → refill read (suc fuel) n w ≡ ok (record { value = none; stored = []; rest = new_riob w' })
  unfolding refill
  refill_failed fuel n w w' h =
      rw (h, refill) (ap (λ r. ok (record { value = none; stored = []; rest = new_riob r.1 })) h)

  -- An interruption takes nothing from the file.
  from_the_start :
      (n : ℕ) (w w' : World)
      → stream w ≡ stream w'
      → patience w' ≤ patience w
      → (d : Result (Done (Riob World))) → Hands n (new_riob w') d
      → Hands n (new_riob w) d
  from_the_start n w w' e p _ (handed d b bs h₁ h₂ h₃ h₄ h₅) =
      handed d b bs h₁ h₂ h₃ (e ∙ h₄) (omega arith)
  from_the_start n w w' e p _ (at_end d h₁ h₂ h₃ h₄) = at_end d h₁ h₂ (e ∙ h₃) h₄
  from_the_start n w w' e p _ (gave_up d h₁ h₂ h₃ h₄) = gave_up d h₁ h₂ (e ∙ h₃) h₄

  module _ (file : IsFile read stream patience) where
    refill_after :
        (m fuel : ℕ) (w : World) (reply : Reply) (w' : World)
        → ((v : World)
            → patience v < fuel
            → Hands (suc m) (new_riob v) (refill read fuel (suc m) v))
        → read buf_size w ≡ (reply, w')
        → patience w < suc fuel
        → Hands (suc m) (new_riob w) (refill read (suc fuel) (suc m) w)
    refill_after m fuel w (arrived []) w' again h f = rw (refill_end fuel (suc m) w w' h) (
        at_end _ refl refl (file.takes buf_size w w' [] h ∙ file.ends 8191 w w' h)
          (file.ends 8191 w w' h))
    refill_after m fuel w (arrived (b ∷ bs)) w' again h f =
        rw (refill_data fuel (suc m) w w' b bs h) (
          hand_out-Hands m (new_riob w) b bs w' (file.takes buf_size w w' (b ∷ bs) h)
            (file.calm buf_size w w' (b ∷ bs) h))
    refill_after m fuel w (failed true) w' again h f =
        let less = file.tires buf_size w w' h in
        rw (refill_again fuel (suc m) w w' h) (
          from_the_start (suc m) w w' (file.keeps buf_size w w' true h) (omega arith) _
            (again w' (omega arith)))
    refill_after m fuel w (failed false) w' again h f =
        rw (refill_failed fuel (suc m) w w' h)
          (gave_up _ refl refl (file.keeps buf_size w w' false h) (buf_size, w, h))

    refill-Hands :
        (m fuel : ℕ) (w : World)
        → patience w < fuel
        → Hands (suc m) (new_riob w) (refill read fuel (suc m) w)
    refill-Hands m zero w f = absurd (omega arith)
    refill-Hands m (suc fuel) w f =
        refill_after m fuel w (read buf_size w).0 (read buf_size w).1 (refill-Hands m fuel) refl f

    _read_from :
        (m fuel : ℕ) (held : Bytes) (w : World)
        → patience w < fuel
        → Hands
            (suc m)
            (record { held = held; file = w })
            (_read read fuel (suc m) (record { held = held; file = w }))
    unfolding _read
    _read_from m fuel [] w f = refill-Hands m fuel w f
    _read_from m fuel (b ∷ more) w f =
        hand_out-Hands m (record { held = b ∷ more; file = w }) b more w refl (omega arith)

    -- `_read` with fuel for the interruptions that are left.
    pub _read-Hands :
        (m fuel : ℕ) (r : Riob World)
        → patience r.file < fuel
        → Hands (suc m) r (_read read fuel (suc m) r)
    _read-Hands m fuel r f = _read_from m fuel r.held r.file f
