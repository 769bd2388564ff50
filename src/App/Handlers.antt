-- ===== src/App/Handlers.antt =====
-- application/hydrogenWeb.cpp: `serveFile`, `serveStatic`, and the pages that `onRequest` chooses from.
use hydrogen_web.Common.{Bool, true, false, not, none, some, ◌++◌, if◌then◌else◌}
use hydrogen_web.Common.Bytes.{Bytes, codes, bytes_eq, index_of}
use hydrogen_web.Common.Dict.{Dict}
use hydrogen_web.Common.Fault.{Result, ok, err, exception, out_of_bounds, ◌>>=◌}
use hydrogen_web.Http.Request.{HttpRequest, get_body}
use hydrogen_web.Http.Response.{HttpResponse, set_body, set_close_connection, append_to_body}
use hydrogen_web.App.{
  Reply, unopened, unmapped, mapped, Outside, response_ok, response404, response500, fill_rows,
  mime_type_of, time_page, select_user, select_password, insert_user, check_passwords, done, row,
  failure,
}

abbrev pub has_dot : Bytes → Bool
has_dot path = elim (index_of b'.' path) [ none ↦ false | some i ↦ true ]

module _ {ℓ} {World : Type ℓ} (outside : Outside World) (mime_types : Dict) where
  -- `serveFile`. Where `mmap` has failed, `setBody` reads from the address -1.
  unfoldable pub serve_file : World → Bytes → HttpResponse → Bytes → Result HttpResponse
  serve_file w path resp mime = elim (outside.read_file w path) [
    | unopened ↦ ok (response500 resp)
    | unmapped ↦ err out_of_bounds
    | mapped content ↦ ok (response_ok (set_body resp content) mime)
  ]

  -- The file that `serveStatic` opens.
  abbrev pub file_path : Bytes → Bytes → Bytes
  file_path mime path =
      if bytes_eq mime (codes "text/html")
      then outside.html_path ++ path
      else outside.object_path ++ path

  unfoldable pub serve_static : World → Bytes → HttpResponse → Result HttpResponse
  serve_static w path resp = elim (mime_type_of mime_types path) [
    | none ↦ err exception
    | some mime ↦
        serve_file w (file_path mime path) resp mime >>= λ r. ok (set_close_connection r true)
  ]

  -- A page that is a file.
  abbrev pub static_page : World → Bytes → HttpResponse → Reply World
  static_page w path resp = serve_static w path resp >>= λ r. ok (r, w)

  unfoldable pub booklist : World → HttpResponse → Reply World
  booklist w resp =
      let head =
        append_to_body
          (set_body (response_ok resp (codes "text/html"))
            (codes "<html><head><title>Book list!!</title></head>"))
          (codes "<table border=\"1\">") in
      if not (outside.open_db w)
      then ok (response500 head, w)
      else let r = outside.exec_sql (codes "SELECT * from booklist") w in
        elim r.0 [
          | none ↦ ok (response500 head, r.1)
          | some rows ↦ ok (
            set_close_connection
                (append_to_body (append_to_body (fill_rows head rows) (codes "</table>"))
                  (codes "</html>"))
                true,
            r.1,
          )
        ]

  -- `/signup` behind an open database. An error leaves the response as it is.
  unfoldable pub insert_new_user : World → HttpRequest → HttpResponse → Reply World
  insert_new_user w req resp = elim (outside.generate_hash (get_body req (codes "password"))) [
    | none ↦ err exception
    | some hash ↦
        let r = outside.exec_sql (insert_user hash req) w in
        elim r.0 [ none ↦ ok (resp, r.1) | some rows ↦ static_page r.1 (codes "/signin.html") resp ]
  ]

  unfoldable pub signup : World → HttpRequest → HttpResponse → Reply World
  signup w req resp =
      if not (outside.open_db w)
      then ok (response500 resp, w)
      else let r = outside.do_sql (select_user req) w in
        elim r.0 [
          | done ↦ insert_new_user r.1 req resp
          | row ↦ static_page r.1 (req.path ++ codes "_error.html") resp
          | failure ↦ ok (resp, r.1)
        ]

  -- `/signin` for a user that the database has.
  unfoldable pub check_user : World → HttpRequest → HttpResponse → Reply World
  check_user w req resp =
      let r = outside.exec_sql (select_password req) w in
      let rejected = static_page r.1 (req.path ++ codes "_error.html") resp in
      elim r.0 [
        | none ↦ rejected
        | some rows ↦
            if check_passwords outside.validate_password (get_body req (codes "password")) rows
            then static_page r.1 (codes "/selection.html") resp
            else rejected
      ]

  unfoldable pub signin : World → HttpRequest → HttpResponse → Reply World
  signin w req resp =
      if not (outside.open_db w)
      then ok (response500 resp, w)
      else let r = outside.do_sql (select_user req) w in
        elim r.0 [
          | done ↦ static_page r.1 (req.path ++ codes "_error.html") resp
          | row ↦ check_user r.1 req resp
          | failure ↦ ok (resp, r.1)
        ]

  -- The pages that the program makes.
  unfoldable pub dynamic_page : World → HttpRequest → HttpResponse → Reply World
  dynamic_page w req resp =
      if bytes_eq req.path (codes "/time")
      then ok (time_page (outside.now w) resp, w)
      else if bytes_eq req.path (codes "/booklist")
      then booklist w resp
      else if bytes_eq req.path (codes "/signup")
      then signup w req resp
      else if bytes_eq req.path (codes "/signin")
      then signin w req resp
      else ok (response404 resp, w)

  -- `onRequest`
  unfoldable pub on_request : World → HttpRequest → HttpResponse → Reply World
  on_request w req resp =
      if bytes_eq req.path (codes "/")
      then static_page w (codes "/home.html") resp
      else if has_dot req.path
      then static_page w req.path resp
      else dynamic_page w req resp
