-- ===== src/App/Pages.antt =====
-- application/hydrogenWeb.cpp: every request is answered, and the files that are served.
use hydrogen_web.Common.{
  ℕ, suc, ◌-◌, ◌≡◌, refl, Bool, true, false, Option, none, some, [], ◌++◌, arith, length,
}
use hydrogen_web.Common.Bytes.{Bytes, codes, bytes_eq, compare_bytes, index_of}
use hydrogen_web.Common.Dict.{Dict, lookup, insert}
use hydrogen_web.Common.Fault.{ok, err, out_of_bounds, exception, ◌>>=◌}
use hydrogen_web.Http.Request.{HttpRequest}
use hydrogen_web.Http.Response.{HttpResponse, set_close_connection}
use hydrogen_web.App.{unmapped, Outside, Reply, mime_type_of, fill_mime_type}
use hydrogen_web.App.Handlers.{on_request, serve_static, serve_file, has_dot}

abbrev dotted : Option ℕ → Bool
dotted none = false
dotted (some i) = true

-- The handler comes back with a response; or it reads at the address -1, of a file that opens and that
-- `mmap` refuses; or the hash of a password throws.
pub data Answers {ℓ} {World : Type ℓ} (outside : Outside World) (reply : Reply World) : Type ℓ where
  answered : (r : HttpResponse) (w : World) → reply ≡ ok (r, w) → Answers outside reply
  reads_outside :
      (w : World) (path : Bytes)
      → outside.read_file w path ≡ unmapped
      → reply ≡ err out_of_bounds
      → Answers outside reply
  throws :
      (password : Bytes)
      → outside.generate_hash password ≡ none
      → reply ≡ err exception
      → Answers outside reply

module _ {ℓ} {World : Type ℓ} (outside : Outside World) (mime_types : Dict) where
  -- The page for a failed attempt at the page of the request.
  abbrev HasErrorPage : HttpRequest → Type 0
  HasErrorPage req = has_dot (req.path ++ codes "_error.html") ≡ true

-- Any path that begins with `/../` is opened below the directory of pages as it stands: the request
-- reaches every file that the server can read.
pub on_request_escapes {ℓ} :
    {World : Type ℓ} (outside : Outside World) (w : World) (req : HttpRequest) (resp : HttpResponse)
    (rest : Bytes)
    → req.path ≡ codes "/../" ++ rest
    → on_request outside (fill_mime_type []) w req resp ≡ (
        (serve_file outside
            (fill_mime_type [])
            w
            (outside.html_path ++ (codes "/../" ++ rest))
            resp
            (codes "text/html")
          >>= λ r. ok (set_close_connection r true))
        >>= λ r. ok (r, w))
unfolding on_request serve_static mime_type_of fill_mime_type lookup insert bytes_eq compare_bytes
    index_of
on_request_escapes outside w req resp rest h =
    let e : suc (suc (suc (suc (length rest)))) - 1 ≡ suc (suc (suc (length rest))) = omega arith in
    rw (h, e) refl
