-- ===== src/Http/Response.antt =====
-- include/network/http/HttpResponse.hpp and src/HttpResponse.cpp: a response and its text.
pub mod Render
pub mod Text
use hydrogen_web.Common.{ℕ, Bool, true, false, List, [], ◌∷◌, ◌++◌, take, length, if◌then◌else◌}
use hydrogen_web.Common.Bytes.{Bytes, codes}
use hydrogen_web.Common.Dict.{Dict, insert}
use hydrogen_web.Common.Decimal.{decimal}
use hydrogen_web.Common.Fault.{Result, ok, ◌>>=◌}
use hydrogen_web.HyBuffer.{HyBuffer, append}

pub record HttpResponse : Type 0 where
  pub headers : Dict
  pub status_code : ℕ
  pub status_msg : Bytes
  pub close_connection : Bool
  pub body : Bytes

-- The status codes that the program names.
abbrev pub ok200 : ℕ
ok200 = 200

abbrev pub not_found404 : ℕ
not_found404 = 404

abbrev pub internal500 : ℕ
internal500 = 500

-- `HttpResponse(close)`
abbrev pub new_response : Bool → HttpResponse
new_response close = record {
  headers = [];
  status_code = 0;
  status_msg = [];
  close_connection = close;
  body = [];
}

abbrev pub set_status_code : HttpResponse → ℕ → HttpResponse
set_status_code r code = record r { status_code = code }

abbrev pub set_status_msg : HttpResponse → Bytes → HttpResponse
set_status_msg r msg = record r { status_msg = msg }

abbrev pub set_close_connection : HttpResponse → Bool → HttpResponse
set_close_connection r close = record r { close_connection = close }

abbrev pub non_persistent : HttpResponse → Bool
non_persistent r = r.close_connection

unfoldable pub add_header : HttpResponse → Bytes → Bytes → HttpResponse
add_header r key value = record r { headers = insert key value r.headers }

unfoldable pub set_content_type : HttpResponse → Bytes → HttpResponse
set_content_type r content_type = add_header r (codes "Content-Type") content_type

abbrev pub set_body : HttpResponse → Bytes → HttpResponse
set_body r body = record r { body = body }

unfoldable pub append_to_body : HttpResponse → Bytes → HttpResponse
append_to_body r msg = record r { body = r.body ++ msg }

abbrev pub crlf : Bytes
crlf = 0x0d ∷ 0x0a ∷ []

-- `snprintf` into the 32 bytes of `buf`, the last for the terminator.
abbrev pub format_buf : Bytes → Bytes
format_buf text = take 31 text

-- The texts that `appendToBuffer` appends for the headers, in order.
abbrev pub header_pieces : Dict → List Bytes
header_pieces [] = []
header_pieces ((k, v) ∷ m) = k ∷ codes ": " ∷ v ∷ crlf ∷ header_pieces m

-- The texts that `appendToBuffer` appends for the connection, in order.
abbrev pub connection_pieces : HttpResponse → List Bytes
connection_pieces r =
    if r.close_connection
    then (codes "Connection: close" ++ crlf) ∷ []
    else format_buf (codes "Content-Length: " ++ (decimal (length r.body) ++ crlf))
      ∷ (codes "Connection: keep-alive" ++ crlf)
      ∷ []

-- The texts that `appendToBuffer` appends before the body, in order.
unfoldable pub head_pieces : HttpResponse → List Bytes
unfolding decimal
head_pieces r =
    format_buf (codes "HTTP/1.1 " ++ (decimal r.status_code ++ codes " "))
    ∷ r.status_msg
    ∷ crlf
    ∷ (connection_pieces r ++ (header_pieces r.headers ++ (crlf ∷ [])))

-- All texts that `appendToBuffer` appends, in order.
abbrev pub pieces : HttpResponse → List Bytes
pieces r = head_pieces r ++ r.body ∷ []

-- A call of `append` for each of the texts.
unfoldable pub append_all : HyBuffer → List Bytes → Result HyBuffer
append_all b [] = ok b
append_all b (t ∷ ts) = append b t >>= λ b'. append_all b' ts

unfoldable pub append_to_buffer : HttpResponse → HyBuffer → Result HyBuffer
append_to_buffer r output = append_all output (pieces r)
