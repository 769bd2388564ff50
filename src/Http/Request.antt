-- ===== src/Http/Request.antt =====
-- include/network/http/HttpRequest.hpp and include/network/Timestamp: a parsed HTTP request.
-- A failed `assert` and a range whose end precedes its start are faults.
pub mod Headers
use hydrogen_web.Common.{
  ℕ, Bool, true, false, ◌||◌, ◌&&◌, Option, none, some, List, [], ◌∷◌, ◌==◌, leb, if◌then◌else◌,
}
use hydrogen_web.Common.Bytes.{Bytes, codes, bytes_eq}
use hydrogen_web.Common.Dict.{Dict, lookup, insert}
use hydrogen_web.Common.Fault.{Result, ok, assertion, exception, guard, ◌>>=◌, ◌>>◌}

pub data Method : Type 0 where
  invalid get post : Method

pub data Version : Type 0 where
  unknown http10 http11 : Version

-- A receive time is its count of microseconds.
pub record HttpRequest : Type 0 where
  pub method : Method
  pub version : Version
  pub path : Bytes
  pub query : Bytes
  pub receive_time : ℕ
  pub headers : Dict
  pub bodys : Dict

-- `HttpRequest()`
abbrev pub empty_request : HttpRequest
empty_request = record {
  method = invalid;
  version = unknown;
  path = [];
  query = [];
  receive_time = 0;
  headers = [];
  bodys = [];
}

abbrev pub is_unknown : Version → Bool
is_unknown unknown = true
is_unknown _ = false

abbrev pub is_invalid : Method → Bool
is_invalid invalid = true
is_invalid _ = false

unfoldable pub set_version : HttpRequest → Version → Result HttpRequest
set_version r v = do guard (is_unknown r.version) assertion; ok (record r { version = v })

-- The method that a token names.
unfoldable pub method_of : Bytes → Method
unfolding bytes_eq
method_of m =
    if bytes_eq m (codes "GET") then get else (if bytes_eq m (codes "POST") then post else invalid)

unfoldable pub set_method : HttpRequest → Bytes → Result (Bool × HttpRequest)
unfolding method_of
set_method r m = do
  guard (is_invalid r.method) assertion
  ok (not_invalid (method_of m), record r { method = method_of m })
  where
    not_invalid : Method → Bool
    not_invalid invalid = false
    not_invalid _ = true

unfoldable pub method_string : HttpRequest → Bytes
method_string r = elim r.method [
  | get ↦ codes "GET"
  | post ↦ codes "POST"
  | invalid ↦ codes "UNKNOWN"
]

unfoldable pub set_path : HttpRequest → Bytes → HttpRequest
set_path r p = record r { path = p }

unfoldable pub set_query : HttpRequest → Bytes → HttpRequest
set_query r q = record r { query = q }

unfoldable pub set_receive_time : HttpRequest → ℕ → HttpRequest
set_receive_time r t = record r { receive_time = t }

-- `isspace` in the C locale
unfoldable pub is_space : ℕ → Bool
is_space c = c == 0x20 || (leb 0x09 c && leb c 0x0d)

-- `while (colon < end && isspace(*colon)) ++colon;` on the bytes from `colon` up to and including
-- `*end`: the last byte always stays.
unfoldable pub skip_spaces : Bytes → Bytes
unfolding is_space
skip_spaces [] = []
skip_spaces (x ∷ []) = x ∷ []
skip_spaces (x ∷ y ∷ xs) = if is_space x then skip_spaces (y ∷ xs) else x ∷ y ∷ xs

-- All of the bytes are spaces.
abbrev pub all_spaces : Bytes → Bool
all_spaces [] = true
all_spaces (x ∷ xs) = is_space x && all_spaces xs

-- `while (colon < end && isspace(*end)) --end;` on the same bytes: the first byte always stays.
unfoldable pub drop_spaces : Bytes → Bytes
unfolding is_space
drop_spaces [] = []
drop_spaces (x ∷ xs) = if all_spaces xs then x ∷ [] else x ∷ drop_spaces xs

-- `addHeader(begin, colon, end)`: `name` is [begin, colon), and `rest` the bytes behind the colon
-- up to and including `*end`.
unfoldable pub add_header : HttpRequest → Bytes → Bytes → HttpRequest
unfolding skip_spaces drop_spaces insert
add_header r name rest = record r {
  headers = insert name (drop_spaces (skip_spaces rest)) r.headers;
}

-- `map.find`, and the empty string for a missing key
abbrev pub find_or_empty : Option Bytes → Bytes
find_or_empty none = []
find_or_empty (some v) = v

unfoldable pub get_header : HttpRequest → Bytes → Bytes
unfolding lookup
get_header r name = find_or_empty (lookup name r.headers)

-- `addBody`: the entry goes to `_headers`, as the source has it.
unfoldable pub add_body : HttpRequest → Bytes → Bytes → HttpRequest
unfolding insert
add_body r name value = record r { headers = insert name value r.headers }

unfoldable pub get_body : HttpRequest → Bytes → Bytes
unfolding lookup
get_body r name = find_or_empty (lookup name r.headers)

-- `swap`: every field but `_bodys`.
unfoldable pub swap : HttpRequest → HttpRequest → HttpRequest × HttpRequest
swap a b = (record b { bodys = a.bodys }, record a { bodys = b.bodys })
