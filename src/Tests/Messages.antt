-- ===== src/Tests/Messages.antt =====
-- Tests of the requests and responses of include/network/http.
use hydrogen_web.Common.{
  ◌+◌, ◌≡◌, refl, true, false, some, [], ◌∷◌, ◌++◌, arith, length, replicate, if◌then◌else◌,
}
use hydrogen_web.Common.Bytes.{Bytes, codes, bytes_eq}
use hydrogen_web.Common.Decimal.{digits_onto, decimal}
use hydrogen_web.Common.Fault.{ok, err, out_of_bounds}
use hydrogen_web.HyBuffer.{HyBuffer, empty_buffer, read_fd, get_crlf, crlf_index, readable, slice}
use hydrogen_web.HyBuffer.Window.{IsValid, contents}
use hydrogen_web.Http.Request.{
  http11, empty_request, add_header, get_header, add_body, get_body, is_space,
}
use hydrogen_web.Http.Request.Headers.{IsTrimmed, get_header-add_header, get_body-add_header}
use hydrogen_web.Http.Context.{
  Progress, empty_context, parse_request, all_ok, expect_body, body_loop, parse_loop, step,
  step_request_line,
}
use hydrogen_web.Http.Context.Headers.{Headers, IsHeaders}
use hydrogen_web.Http.Context.RoundTrip.{
  IsTarget, request_text, get_request, parse_request-request_text,
}
use hydrogen_web.Http.Context.Split.{Divided, parse_request-Split}
use hydrogen_web.Http.Context.Termination.{Ends, parse_request-Ends}
use hydrogen_web.Http.Context.Body.{IsEntry, Finished, body_loop_lem, first_byte_lost}
use hydrogen_web.Http.Response.{HttpResponse, new_response, head_pieces, append_to_buffer}
use hydrogen_web.Http.Response.Render.{append_to_buffer_overruns}
use hydrogen_web.Http.Response.Text.{response_text, append_to_buffer-response_text}

-- A request, and a buffer that has received it.
abbrev a_header : Headers
a_header = (codes "H", codes "v") ∷ []

abbrev a_request : Bytes
a_request = request_text (codes "/a") (some (codes "q")) http11 a_header (codes "zz")

abbrev holding : Bytes → HyBuffer
holding text = record {
  buffer = replicate 8 0 ++ (text ++ replicate 8 0);
  reader_index = 8;
  writer_index = 8 + length text;
}

holding-IsValid : IsValid (holding a_request)
holding-IsValid = record {
  front = omega arith;
  order = omega arith;
  within = omega arith;
  small = omega arith;
}

a-IsTarget : IsTarget (codes "/a") (some (codes "q"))
a-IsTarget = (ground arith, ground arith, ground arith)

v-IsTrimmed : IsTrimmed (codes "v")
unfolding is_space
v-IsTrimmed = (refl, refl)

a_header-IsHeaders : IsHeaders a_header
a_header-IsHeaders = (
  record {
    no_colon = ground arith;
    name_no_cr = ground arith;
    value_no_cr = ground arith;
    trimmed = v-IsTrimmed;
  },
  tt,
)

parse_request-request_text_example :
    (q : Progress) × (parse_request empty_context (holding a_request) 5 ≡ ok q)
    × (q.correct ≡ true)
    × (q.context.state ≡ all_ok)
    × (q.context.request ≡ get_request 5 (codes "/a") (some (codes "q")) http11 a_header)
    × (contents q.buffer ≡ codes "zz")
    × IsValid q.buffer
parse_request-request_text_example =
    parse_request-request_text (holding a_request) 5 (codes "/a") (some (codes "q")) http11 a_header
      (codes "zz") (λ e. cc) a-IsTarget a_header-IsHeaders holding-IsValid refl

parse_request-Ends_example : Ends (parse_request empty_context (holding a_request) 5)
parse_request-Ends_example =
    parse_request-Ends empty_context (holding a_request) 5 holding-IsValid (λ e. cc)

-- A tab and two blanks in front of a value, and the CR behind it.
abbrev spaced : Bytes
spaced = (0x09 ∷ 0x20 ∷ 0x20 ∷ []) ++ (codes "v" ++ 0x0d ∷ [])

get_header-add_header_example :
    get_header (add_header empty_request (codes "H") spaced) (codes "H")
    ≡ (if bytes_eq (codes "H") (codes "H") then codes "v" else get_header empty_request (codes "H"))
unfolding is_space
get_header-add_header_example =
    get_header-add_header empty_request (codes "H") (0x09 ∷ 0x20 ∷ 0x20 ∷ []) (codes "v")
      (codes "H") refl v-IsTrimmed

get_body-add_header_example :
    (get_body (add_header empty_request (codes "n") spaced) (codes "n") ≡ codes "v")
    × (get_header
          (add_body (add_header empty_request (codes "n") spaced) (codes "n") (codes "w"))
          (codes "n")
        ≡ codes "w")
    × ((add_body (add_header empty_request (codes "n") spaced) (codes "n") (codes "w")).bodys
        ≡ empty_request.bodys)
unfolding is_space
get_body-add_header_example =
    get_body-add_header empty_request (codes "n") (0x09 ∷ 0x20 ∷ 0x20 ∷ []) (codes "v") (codes "w")
      refl v-IsTrimmed

-- A form with one entry, and the state in which it is read.
abbrev a_form : Progress
a_form = record {
  correct = true;
  has_more = true;
  context = record empty_context { state = expect_body };
  buffer = holding (codes "n=w");
}

form-IsValid : IsValid a_form.buffer
form-IsValid = record {
  front = omega arith;
  order = omega arith;
  within = omega arith;
  small = omega arith;
}

an-IsEntry : IsEntry (codes "n") (codes "w")
an-IsEntry = (ground arith, ground arith, ground arith)

body_loop_lem_example :
    (q : Progress) × (body_loop 1 a_form ≡ ok q) × Finished a_form ((codes "n", codes "w") ∷ []) q
body_loop_lem_example =
    body_loop_lem 1 a_form (codes "n") (codes "w") [] an-IsEntry tt form-IsValid refl (omega arith)

first_byte_lost_example :
    (q : Progress) × (b : HyBuffer) × (body_loop 1 a_form ≡ ok q)
    × (q.context.state ≡ all_ok)
    × (read_fd q.buffer (some (codes "xy")) ≡ ok (b, some 2))
    × (contents b ≡ codes "y")
first_byte_lost_example =
    first_byte_lost 1 a_form (codes "n") (codes "w") [] b'x' (codes "y") an-IsEntry tt form-IsValid
      refl (omega arith) (omega arith)

-- A short response, and one that is longer than the rest of a new buffer.
abbrev a_response : HttpResponse
a_response = record (new_response true) {
  status_code = 200;
  status_msg = codes "OK";
  body = codes "hi";
}

abbrev long_response : HttpResponse
long_response = record a_response { body = replicate 1000 b'x' }

append_to_buffer-response_text_example :
    (b : HyBuffer) × (append_to_buffer a_response empty_buffer ≡ ok b)
    × (contents b ≡ response_text a_response)
    × IsValid b
unfolding decimal digits_onto
append_to_buffer-response_text_example =
    append_to_buffer-response_text a_response (omega arith) (omega arith)

append_to_buffer_overruns_example : append_to_buffer long_response empty_buffer ≡ err out_of_bounds
unfolding head_pieces decimal digits_onto
append_to_buffer_overruns_example =
    append_to_buffer_overruns long_response (omega arith) (omega arith) (omega arith)

-- The first part ends inside of the request line.
abbrev half : Bytes
half = codes "GET /a HT"

abbrev other_half : Bytes
other_half = codes "TP/1.1" ++ (0x0d ∷ 0x0a ∷ codes "Ho")

half-IsValid : IsValid (holding half)
half-IsValid = record {
  front = omega arith;
  order = omega arith;
  within = omega arith;
  small = omega arith;
}

both_halves-IsValid : IsValid (holding (half ++ other_half))
both_halves-IsValid = record {
  front = omega arith;
  order = omega arith;
  within = omega arith;
  small = omega arith;
}

parse_request-Split_example :
    Divided
      (record { correct = true; has_more = false; context = empty_context; buffer = holding half })
      (parse_request empty_context (holding (half ++ other_half)) 5)
      (parse_request empty_context (holding (half ++ other_half)) 5)
unfolding parse_request parse_loop step step_request_line get_crlf crlf_index readable slice
parse_request-Split_example =
    parse_request-Split empty_context 5 (holding half) (holding (half ++ other_half))
      (holding (half ++ other_half)) other_half
      (record { correct = true; has_more = false; context = empty_context; buffer = holding half })
      (λ e. cc) half-IsValid both_halves-IsValid both_halves-IsValid refl (λ e. cc) (λ e. cc) refl
      refl
