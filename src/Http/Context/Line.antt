-- ===== src/Http/Context/Line.antt =====
-- HttpContext: the faults that the request line and the entries of a body can raise.
use hydrogen_web.Common.{
  ℕ, ◌+◌, ◌≤◌, ◌≡◌, refl, inl, inr, Bool, some, arith, length, drop, length-drop, Option-cases,
  take, true, false, if◌then◌else◌, [], ◌∷◌, ◌++◌, length-append, drop-drop, drop-append_self, ap,
  sym, ◌∙◌,
}
use hydrogen_web.Common.Bytes.{Bytes, index_of, Free}
use hydrogen_web.Common.Fault.{Result, ok, err, assertion, exception, ◌>>=◌}
use hydrogen_web.HyBuffer.{HyBuffer, clear_until, get_crlf, crlf_index}
use hydrogen_web.HyBuffer.Window.{IsValid, contents}
use hydrogen_web.HyBuffer.Reading.{clear_lem}
use hydrogen_web.HyBuffer.Searching.{crlf, get_crlf_lem, crlf_index-append}
use hydrogen_web.Http.Request.{HttpRequest, set_version, set_method}
use hydrogen_web.Http.Context.{
  parse_version, parse_target, parse_request_line, stoi, stoi_magnitude,
}

-- The only fault is a failed assertion.
abbrev pub AssertOnly : {A : Type 0} → Result A → Type 0
AssertOnly (ok a) = Unit {0}
AssertOnly (err e) = e ≡ assertion

-- The only fault is an exception.
abbrev pub ThrowOnly : {A : Type 0} → Result A → Type 0
ThrowOnly (ok a) = Unit {0}
ThrowOnly (err e) = e ≡ exception

-- A chain whose parts only assert only asserts.
>>=-AssertOnly :
    {A B : Type 0} (m : Result A) (f : A → Result B)
    → AssertOnly m
    → ((a : A) → AssertOnly (f a))
    → AssertOnly (m >>= f)
>>=-AssertOnly (ok a) f h k = k a
>>=-AssertOnly (err e) f h k = h

if-AssertOnly :
    {A : Type 0} (b : Bool) (x y : Result A)
    → AssertOnly x
    → AssertOnly y
    → AssertOnly (if b then x else y)
if-AssertOnly true x y h k = h
if-AssertOnly false x y h k = k

set_method-AssertOnly : (r : HttpRequest) (m : Bytes) → AssertOnly (set_method r m)
unfolding set_method
set_method-AssertOnly r m = ground arith

parse_version-AssertOnly : (r : HttpRequest) (v : Bytes) → AssertOnly (parse_version r v)
unfolding parse_version set_version
parse_version-AssertOnly r v = ground arith

parse_target-AssertOnly : (r : HttpRequest) (rest : Bytes) → AssertOnly (parse_target r rest)
unfolding parse_target
parse_target-AssertOnly r rest = elim (Option-cases (index_of 0x20 rest)) [
  | inl e ↦ rw (e, parse_target) tt
  | inr (i, e) ↦ rw (e, parse_target) (parse_version-AssertOnly _ _)
]

pub parse_request_line-AssertOnly :
    (r : HttpRequest) (line : Bytes) → AssertOnly (parse_request_line r line)
unfolding parse_request_line
parse_request_line-AssertOnly r line = elim (Option-cases (index_of 0x20 line)) [
  | inl e ↦ rw (e, parse_request_line) tt
  | inr (i, e) ↦
      rw (e, parse_request_line)
        (>>=-AssertOnly (set_method r (take i line)) _ (set_method-AssertOnly r (take i line))
          λ m. if-AssertOnly m.0 _ _ (parse_target-AssertOnly _ _) tt)
]

stoi_magnitude-ThrowOnly : (n : Bool) (s : Bytes) → ThrowOnly (stoi_magnitude n s)
unfolding stoi_magnitude
stoi_magnitude-ThrowOnly n s = ground arith

pub stoi-ThrowOnly : (s : Bytes) → ThrowOnly (stoi s)
unfolding stoi
stoi-ThrowOnly [] = refl
stoi-ThrowOnly (x ∷ xs) = ground (
  arith,
  stoi-ThrowOnly xs,
  stoi_magnitude-ThrowOnly true xs,
  stoi_magnitude-ThrowOnly false xs,
  stoi_magnitude-ThrowOnly false (x ∷ xs),
)

-- `clearUntil` inside the readable bytes drops them and keeps the buffer valid.
pub clear_until_lem :
    {b : HyBuffer} (n : ℕ)
    → IsValid b
    → n ≤ length (contents b)
    → (contents (clear_until b n) ≡ drop n (contents b))
      × IsValid (clear_until b n)
      × (length (contents (clear_until b n)) + n ≡ length (contents b))
unfolding clear_until
clear_until_lem {b} n v h = let c = clear_lem n v h in ground (arith, c, length-drop n (contents b))

-- A line in front of the readable bytes is found, and consumed with its CRLF.
pub line_lem :
    {b : HyBuffer} (line rest : Bytes)
    → IsValid b
    → Free 0x0d line
    → contents b ≡ line ++ (crlf ++ rest)
    → (get_crlf b ≡ ok (some (length line)))
      × (contents (clear_until b (length line + 2)) ≡ rest)
      × IsValid (clear_until b (length line + 2))
line_lem {b} line rest v f e =
    let size : length (contents b) ≡ length line + 2 + length rest =
      omega (arith, ap length e, length-append line (crlf ++ rest)) in
    let c = clear_until_lem (length line + 2) v (omega arith) in
    (
      (get_crlf_lem v).0
          ∙ ap (λ t. ok (crlf_index t)) e
          ∙ ap (λ i. ok i) (crlf_index-append line rest f),
      c.0 ∙ (ap (drop (length line + 2)) e ∙ behind),
      c.1,
    )
  where
    behind : drop (length line + 2) (line ++ (crlf ++ rest)) ≡ rest
    behind =
        sym (drop-drop 2 (length line) (line ++ (crlf ++ rest)))
        ∙ ap (drop 2) (drop-append_self line (crlf ++ rest))
