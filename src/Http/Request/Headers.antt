-- ===== src/Http/Request/Headers.antt =====
-- HttpRequest: what `addHeader` stores for the value of a header line, and what `getHeader` and
-- `getBody` then return.
use hydrogen_web.Common.{ℕ, ◌≡◌, refl, true, false, [], ◌∷◌, ◌++◌, arith, if◌then◌else◌}
use hydrogen_web.Common.Bytes.{Bytes, bytes_eq, bytes_eq_self}
use hydrogen_web.Common.Dict.{lookup-insert}
use hydrogen_web.Http.Request.{
  HttpRequest, is_space, skip_spaces, all_spaces, drop_spaces, add_header, get_header, add_body,
  get_body,
}

-- The last byte is no white space.
abbrev pub LastVisible : ℕ → Bytes → Type 0
LastVisible x [] = is_space x ≡ false
LastVisible x (y ∷ ys) = LastVisible y ys

-- A value that white space neither starts nor ends, and that is not empty.
abbrev pub IsTrimmed : Bytes → Type 0
IsTrimmed [] = ⊥
IsTrimmed (x ∷ xs) = (is_space x ≡ false) × LastVisible x xs

all_spaces-LastVisible :
    (x : ℕ) (xs : Bytes) → LastVisible x xs → all_spaces (x ∷ (xs ++ 0x0d ∷ [])) ≡ false
all_spaces-LastVisible x [] h = ground arith
all_spaces-LastVisible x (y ∷ ys) h = ground (arith, all_spaces-LastVisible y ys h)

drop_spaces-LastVisible :
    (x : ℕ) (xs : Bytes) → LastVisible x xs → drop_spaces (x ∷ (xs ++ 0x0d ∷ [])) ≡ x ∷ xs
unfolding drop_spaces
drop_spaces-LastVisible x [] h = refl
drop_spaces-LastVisible x (y ∷ ys) h =
    ground (arith, all_spaces-LastVisible y ys h, drop_spaces-LastVisible y ys h)

-- White space around a value goes, the CR behind it included, and nothing else.
pub trim_lem : (v : Bytes) → IsTrimmed v → drop_spaces (skip_spaces (0x20 ∷ (v ++ 0x0d ∷ []))) ≡ v
unfolding skip_spaces
trim_lem [] h = absurd h
trim_lem (x ∷ []) h = ground (arith, drop_spaces-LastVisible x [] h.1)
trim_lem (x ∷ y ∷ ys) h = ground (arith, drop_spaces-LastVisible x (y ∷ ys) h.1)

-- Any white space in front of a value is skipped.
skip_spaces-visible :
    (spaces : Bytes) (x y : ℕ) (rest : Bytes)
    → all_spaces spaces ≡ true
    → is_space x ≡ false
    → skip_spaces (spaces ++ x ∷ y ∷ rest) ≡ x ∷ y ∷ rest
unfolding skip_spaces
skip_spaces-visible [] x y rest h k = ground arith
skip_spaces-visible (s ∷ []) x y rest h k = ground arith
skip_spaces-visible (s ∷ t ∷ ts) x y rest h k =
    ground (arith, skip_spaces-visible (t ∷ ts) x y rest)

-- All of the white space in front of a value goes, and the white space behind it, the CR included.
pub trimmed :
    (spaces v : Bytes)
    → all_spaces spaces ≡ true
    → IsTrimmed v
    → drop_spaces (skip_spaces (spaces ++ (v ++ 0x0d ∷ []))) ≡ v
trimmed spaces [] s h = absurd h
trimmed spaces (x ∷ []) s h =
    rw (skip_spaces-visible spaces x 0x0d [] s h.0) (drop_spaces-LastVisible x [] h.1)
trimmed spaces (x ∷ y ∷ ys) s h =
    rw (skip_spaces-visible spaces x y (ys ++ 0x0d ∷ []) s h.0)
      (drop_spaces-LastVisible x (y ∷ ys) h.1)

-- A header line whose value stands between any white space in front and one CR behind is stored: the
-- value is found under its name without the white space and the CR, and every other header stays.
pub get_header-add_header :
    (r : HttpRequest) (name spaces v other : Bytes)
    → all_spaces spaces ≡ true
    → IsTrimmed v
    → get_header (add_header r name (spaces ++ (v ++ 0x0d ∷ []))) other
      ≡ (if bytes_eq name other then v else get_header r other)
unfolding add_header get_header
get_header-add_header r name spaces v other s h =
    rw (trimmed spaces v s h, lookup-insert name other v r.headers) (ground arith)

skip_spaces-blank :
    (spaces : Bytes) → all_spaces spaces ≡ true → skip_spaces (spaces ++ 0x0d ∷ []) ≡ 0x0d ∷ []
unfolding skip_spaces
skip_spaces-blank [] h = refl
skip_spaces-blank (x ∷ []) h = ground arith
skip_spaces-blank (x ∷ y ∷ ys) h = ground (arith, skip_spaces-blank (y ∷ ys))

-- A header line with nothing but white space behind its colon stores the CR as its value.
pub add_header_blank :
    (r : HttpRequest) (name spaces : Bytes)
    → all_spaces spaces ≡ true
    → get_header (add_header r name (spaces ++ 0x0d ∷ [])) name ≡ 0x0d ∷ []
unfolding add_header get_header drop_spaces
add_header_blank r name spaces h =
    rw (skip_spaces-blank spaces h, lookup-insert name name _ r.headers, bytes_eq_self name)

-- Headers and body entries share one map. After `addHeader` of a value between any white space and a
-- CR, `getBody` of the name returns the value; after `addBody`, `getHeader` of the name returns what was
-- stored, in the place of a header of that name; and the map `_bodys` stays as it was.
pub get_body-add_header :
    (r : HttpRequest) (name spaces v value : Bytes)
    → all_spaces spaces ≡ true
    → IsTrimmed v
    → (get_body (add_header r name (spaces ++ (v ++ 0x0d ∷ []))) name ≡ v)
      × (get_header (add_body (add_header r name (spaces ++ (v ++ 0x0d ∷ []))) name value) name
          ≡ value)
      × ((add_body (add_header r name (spaces ++ (v ++ 0x0d ∷ []))) name value).bodys ≡ r.bodys)
unfolding add_header add_body get_header get_body
get_body-add_header r name spaces v value s h = (
  rw (trimmed spaces v s h, lookup-insert name name v r.headers, bytes_eq_self name) refl,
  rw
      (
        lookup-insert name name value (add_header r name (spaces ++ (v ++ 0x0d ∷ []))).headers,
        bytes_eq_self name,
      )
      refl,
  refl,
)
