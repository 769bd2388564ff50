-- ===== src/App.antt =====
-- application/hydrogenWeb.cpp: the pages of the web server. The file system, the database, the hash of
-- passwords and the clock are parameters.
pub mod Handlers
pub mod Pages
use hydrogen_web.Common.{
  ℕ, zero, suc, ◌+◌, ◌-◌, ◌*◌, ◌/◌, ◌%◌, Bool, true, false, ◌&&◌, not, Option, none, some, List, [],
  ◌∷◌, ◌++◌, ◌==◌, if◌then◌else◌, drop, take, ltb, length,
}
use hydrogen_web.Common.Bytes.{Bytes, codes, bytes_eq, index_of}
use hydrogen_web.Common.Dict.{Dict, lookup, insert}
use hydrogen_web.Common.Fault.{Result, ok, err, exception, ◌>>=◌}
use hydrogen_web.Common.Decimal.{decimal}
use hydrogen_web.Http.Request.{HttpRequest, get_body}
use hydrogen_web.Http.Response.{
  HttpResponse, ok200, not_found404, internal500, set_status_code, set_status_msg, set_content_type,
  set_body, set_close_connection, append_to_body, add_header,
}

-- The response and the state of the rest, behind a handler.
abbrev pub Reply {ℓ} : Type ℓ → Type ℓ
Reply World = Result (HttpResponse × World)

-- What `sqlite3_step` answers: SQLITE_DONE, SQLITE_ROW, or an error.
pub data Step : Type 0 where
  done row failure : Step

-- What `open` and `mmap` make of a path: `open` fails; or `mmap` answers MAP_FAILED for a file that is not
-- empty, as it does for a directory; or the bytes of the file. An empty file, which `mmap` refuses too, has
-- no byte that is read.
pub data File : Type 0 where
  unopened unmapped : File
  mapped : Bytes → File

-- The code that the pages call. `generate_hash` is `none` where it throws. `exec_sql` answers the rows of a statement, `none` for an error.
pub record Outside {ℓ} (World : Type ℓ) : Type ℓ where
  pub read_file : World → Bytes → File
  pub open_db : World → Bool
  pub do_sql : Bytes → World → Step × World
  pub exec_sql : Bytes → World → Option (List (List Bytes)) × World
  pub validate_password : Bytes → Bytes → Bool
  pub generate_hash : Bytes → Option Bytes
  pub now : World → ℕ
  pub html_path : Bytes
  pub object_path : Bytes

-- `detail::fillMimeType`
unfoldable pub fill_mime_type : Dict → Dict
fill_mime_type m0 =
    let m1 = insert (codes ".html") (codes "text/html") m0 in
    let m2 = insert (codes ".mp4") (codes "video/mpeg") m1 in
    let m3 = insert (codes ".png") (codes "image/png") m2 in
    let m4 = insert (codes ".jpg") (codes "image/jpeg") m3 in
    let m5 = insert (codes ".jpeg") (codes "image/jpeg") m4 in
    let m6 = insert (codes ".gif") (codes "image/gif") m5 in
    let m7 = insert (codes ".mp3") (codes "audio/mpeg") m6 in
    insert (codes "default") (codes "text/html") m7

unfoldable pub response_ok : HttpResponse → Bytes → HttpResponse
response_ok resp content_type =
    add_header
      (set_content_type (set_status_msg (set_status_code resp ok200) (codes "OK")) content_type)
      (codes "Server") (codes "HydrogenWeb")

-- The common part of the two pages of errors.
abbrev refuse : HttpResponse → ℕ → Bytes → Bytes → HttpResponse
refuse resp code msg body =
    set_body
      (set_close_connection
        (add_header (set_content_type (set_status_msg (set_status_code resp code) msg) [])
          (codes "Server") (codes "HydrogenWeb"))
        true)
      body

unfoldable pub response404 : HttpResponse → HttpResponse
response404 resp = refuse resp not_found404 (codes "Not Found") (codes "404 NOTFOUND")

unfoldable pub response500 : HttpResponse → HttpResponse
response500 resp =
    refuse resp internal500 (codes "Internal Server Error") (codes "500 INTERNAL ERROR")

-- The cells of a row, each through `snprintf` into the 256 bytes of `buf`.
unfoldable pub fill_cells : HttpResponse → List Bytes → HttpResponse
fill_cells resp [] = resp
fill_cells resp (cell ∷ cells) =
    fill_cells (append_to_body resp (take 255 (codes "<td>" ++ (cell ++ codes "</td>")))) cells

-- `fillData`, for one row, and for every row as `sqlite3_exec` calls it.
unfoldable pub fill_data : HttpResponse → List Bytes → HttpResponse
fill_data resp cells =
    append_to_body (fill_cells (append_to_body resp (codes "<tr>")) cells) (codes "</tr>")

unfoldable pub fill_rows : HttpResponse → List (List Bytes) → HttpResponse
fill_rows resp [] = resp
fill_rows resp (cells ∷ rows) = fill_rows (fill_data resp cells) rows

-- `path.substr(path.find('.'), path.length() - 1)`, `none` where it throws.
abbrev pub suffix_of : Bytes → Option Bytes
suffix_of path = elim (index_of b'.' path) [
  | none ↦ none
  | some i ↦ some (take (length path - 1) (drop i path))
]

abbrev pub or_default : Dict → Option Bytes → Bytes
or_default mime_types (some mime) = mime
or_default mime_types none = elim (lookup (codes "default") mime_types) [
  | none ↦ []
  | some mime ↦ mime
]

-- The MIME type that `serveStatic` picks. A path without a dot makes `substr` throw.
unfoldable pub mime_type_of : Dict → Bytes → Option Bytes
mime_type_of mime_types path = elim (suffix_of path) [
  | none ↦ none
  | some suffix ↦ some (or_default mime_types (lookup suffix mime_types))
]

-- `Timestamp::toString`
unfoldable pub to_string : ℕ → Bytes
to_string micros =
    decimal (micros / 1000000) ++ b'.' ∷ drop 1 (decimal (1000000 + micros % 1000000))

-- The texts of the page `/time`, behind the head. The divisions by 30.5 and 12 are of `double`s, which
-- are exact enough here: both are written over whole numbers.
abbrev pub time_texts : ℕ → List Bytes
time_texts micros =
    let days = micros / 1000000 / 86400 in
    codes "<body><h1>Long time no see!</h1>"
    ∷ (codes "<p>Now is " ++ (to_string micros ++ codes " seconds from 1970/00/00 00:00:00</p>"))
    ∷ (codes "<p>" ++ (decimal days ++ codes " days</p>"))
    ∷ (codes "<p>about " ++ (decimal (2 * days / 61) ++ codes " months</p>"))
    ∷ (codes "<p>about " ++ (decimal (2 * days / 732) ++ codes " years</p>"))
    ∷ codes "</html>"
    ∷ []

unfoldable pub append_texts : HttpResponse → List Bytes → HttpResponse
append_texts resp [] = resp
append_texts resp (text ∷ texts) = append_texts (append_to_body resp text) texts

-- The page `/time`.
unfoldable pub time_page : ℕ → HttpResponse → HttpResponse
time_page micros resp =
    set_close_connection
      (append_texts
        (set_body (response_ok resp (codes "text/html"))
          (codes "<html><head><title>Welcome!</title></head>"))
        (time_texts micros))
      true

-- The statements that the pages build from the fields of the body, as they arrive.
unfoldable pub select_user : HttpRequest → Bytes
select_user req =
    codes "SELECT * from users WHERE username='" ++ (get_body req (codes "username") ++ codes "'")

unfoldable pub select_password : HttpRequest → Bytes
select_password req =
    codes "SELECT password from users WHERE username='"
    ++ (get_body req (codes "username") ++ codes "'")

unfoldable pub insert_user : Bytes → HttpRequest → Bytes
insert_user hash req =
    codes "INSERT INTO users (username, password) VALUES ('"
    ++ (get_body req (codes "username") ++ (codes "', '" ++ (hash ++ codes "')")))

-- `checkPassword` on each row: `sqlite3_exec` stops with an error at the first that does not match.
-- A row without cells does not arise from `SELECT password`.
unfoldable pub check_passwords : (Bytes → Bytes → Bool) → Bytes → List (List Bytes) → Bool
check_passwords validate password [] = true
check_passwords validate password ([] ∷ rows) = false
check_passwords validate password ((hash ∷ cells) ∷ rows) =
    validate password hash && check_passwords validate password rows
