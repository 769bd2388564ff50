-- ===== src/Io/Lines.antt =====
-- src/robustio.cpp: `Riob::readlineb` reads a line of the file, or what is left of it.
use hydrogen_web.Common.{
  ℕ, zero, suc, ◌+◌, ◌-◌, ◌<◌, ◌≡◌, ◌≢◌, refl, sym, ap, subst, ◌∙◌, none, some, [], ◌∷◌, ◌++◌, ◌==◌,
  ==_iff, append-nil, arith, length, length-append, append_assoc, Bool-cases, inl, inr,
}
use hydrogen_web.Common.Bytes.{Bytes, Free, Free-snoc, bytes_eq, bytes_eq_iff}
use hydrogen_web.Common.Fault.{Result, ok}
use hydrogen_web.Io.{Reply, Done, Riob, _read, readlineb_loop, readlineb}
use hydrogen_web.Io.Reading.{IsFile, Refused}
use hydrogen_web.Io.Buffered.{coming, Hands, handed, at_end, gave_up, _read-Hands}

module _ {ℓ} {World : Type ℓ} (read : ℕ → World → Reply × World) (stream : World → Bytes)
    (patience : World → ℕ) where
  -- What a finished `readlineb` of `maxlen` means. `line` is what it took from the file, without the end of
  -- the line.
  pub data Lines (maxlen : ℕ) (r : Riob World) : Result (Done (Riob World)) → Type ℓ where
    whole :
        (d : Done (Riob World)) (line : Bytes)
        → Free 10 line
        → d.stored ≡ line ++ 10 ∷ 0 ∷ []
        → d.value ≡ some (length line + 1)
        → length line + 1 < maxlen
        → coming read stream patience r ≡ line ++ 10 ∷ coming read stream patience d.rest
        → Lines maxlen r (ok d)
    cut :
        (d : Done (Riob World)) (line : Bytes)
        → Free 10 line
        → d.stored ≡ line ++ 0 ∷ []
        → d.value ≡ some maxlen
        → length line + 1 ≡ maxlen
        → coming read stream patience r ≡ line ++ coming read stream patience d.rest
        → Lines maxlen r (ok d)
    last :
        (d : Done (Riob World)) (line : Bytes)
        → Free 10 line
        → d.stored ≡ line ++ 0 ∷ []
        → d.value ≡ some (length line + 1)
        → line ≢ []
        → coming read stream patience r ≡ line
        → coming read stream patience d.rest ≡ []
        → Lines maxlen r (ok d)
    nothing :
        (d : Done (Riob World))
        → d.stored ≡ []
        → d.value ≡ some 0
        → coming read stream patience r ≡ []
        → coming read stream patience d.rest ≡ []
        → Lines maxlen r (ok d)
    failed_inside :
        (d : Done (Riob World)) (line : Bytes)
        → Free 10 line
        → d.stored ≡ line
        → d.value ≡ none
        → coming read stream patience r ≡ line ++ coming read stream patience d.rest
        → Refused read stream d.rest.file
        → Lines maxlen r (ok d)

  empty : (line : Bytes) → length line ≡ 0 → line ≡ []
  empty [] h = refl
  empty (b ∷ line) h = absurd (omega arith)

  abbrev rest_of : Riob World → Bytes
  rest_of r = coming read stream patience r

  module _ (file : IsFile read stream patience) (maxlen fuel : ℕ) (start : Riob World) where
    -- The loop behind the bytes of `line`.
    abbrev Continues : ℕ → Type ℓ
    Continues left =
        (line : Bytes) (r : Riob World)
        → length line + 1 + left ≡ maxlen
        → Free 10 line
        → rest_of start ≡ line ++ rest_of r
        → patience r.file < fuel
        → Lines maxlen start (readlineb_loop read fuel left (length line + 1) line r)

    line_after :
        (left : ℕ)
        → Continues left
        → (line : Bytes) (r : Riob World) (q : Result (Done (Riob World))) → _read read fuel 1 r ≡ q
        → Hands read stream patience 1 r q
        → length line + 1 + suc left ≡ maxlen
        → Free 10 line
        → rest_of start ≡ line ++ rest_of r
        → patience r.file < fuel
        → Lines maxlen start (readlineb_loop read fuel (suc left) (length line + 1) line r)
    unfolding readlineb_loop
    line_after left again line r _ run (handed d b (c ∷ bs) h₁ h₂ h₃ h₄ h₅) len free s f =
        absurd (omega arith)
    line_after left again line r _ run (handed d b [] h₁ h₂ h₃ h₄ h₅) len free s f =
        let more = s ∙ ap (λ t. line ++ t) h₄ in
        elim (Bool-cases (bytes_eq (b ∷ []) (10 ∷ []))) [
          | inl e ↦
              let k : b ≡ 10 = (let q = (bytes_eq_iff (b ∷ []) (10 ∷ [])).0 e in cc) in
              rw (run, h₂, h₁, e, h₁)
                (whole _ line free
                  (append_assoc line (b ∷ []) (0 ∷ []) ∙ ap (λ x. line ++ x ∷ 0 ∷ []) k) refl
                  (omega arith) (more ∙ ap (λ x. line ++ x ∷ rest_of d.rest) k))
          | inr e ↦
              let k : b ≢ 10 =
                λ q. (let u = (bytes_eq_iff (b ∷ []) (10 ∷ [])).1 (ap (λ x. x ∷ []) q) in cc) in
              let n : length (line ++ b ∷ []) ≡ length line + 1 =
                length-append line (b ∷ []) ∙ omega arith in
              rw (run, h₂, h₁, e, h₁)
                (subst
                  (λ m.
                    Lines maxlen start
                      (readlineb_loop read fuel left (m + 1) (line ++ b ∷ []) d.rest))
                  n
                  (again (line ++ b ∷ []) d.rest (omega (arith, n)) (Free-snoc 10 line b free k)
                    (more ∙ sym (append_assoc line (b ∷ []) (rest_of d.rest))) (omega arith)))
        ]
    line_after left again line r _ run (at_end d h₁ h₂ h₃ h₄) len free s f =
        elim (Bool-cases (length line + 1 == 1)) [
          | inl e ↦
              let z : line ≡ [] = empty line (omega (arith, (==_iff (length line + 1) 1).0 e)) in
              rw (run, h₂, e) (nothing _ z refl (s ∙ ap (λ l. l ++ rest_of r) z ∙ h₃) h₄)
          | inr e ↦
              rw (run, h₂, e)
                (last _ line free refl refl
                  (λ z.
                    (let q =
                        (==_iff (length line + 1) 1).1 (ap (λ l. length l + 1) z ∙ omega arith) in
                      cc))
                  (s ∙ ap (λ t. line ++ t) h₃ ∙ append-nil line) h₄)
        ]
    line_after left again line r _ run (gave_up d h₁ h₂ h₃ h₄) len free s f =
        rw (run, h₂) (failed_inside _ line free refl refl (s ∙ ap (λ t. line ++ t) h₃) h₄)

    line_lem : (left : ℕ) → Continues left
    unfolding readlineb_loop
    line_lem zero line r len free s f = cut _ line free refl (ap some (omega arith)) (omega arith) s
    line_lem (suc left) line r len free s f =
        line_after left (line_lem left) line r (_read read fuel 1 r) refl
          (_read-Hands read stream patience file 0 fuel r f) len free s f

    -- `readlineb` ends, however the kernel splits and interrupts the reads, in one of five ways: with the
    -- bytes of the file up to the end of a line and the number of them; with one byte less than `maxlen`,
    -- where the number is `maxlen`; with all that was left in the file, where the number is one more than
    -- that of the bytes; with nothing at the end of the file; or, only where the kernel answers an error other than EINTR,
    -- with -1, where the bytes taken are stored.
    -- In each the bytes behind those it took are still to come.
    pub readlineb-Lines :
        0 < maxlen
        → patience start.file < fuel
        → Lines maxlen start (readlineb read fuel maxlen start)
    readlineb-Lines h f = line_lem (maxlen - 1) [] start (omega arith) tt refl f
