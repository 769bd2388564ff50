-- ===== src/Net/TcpServer/Names.antt =====
-- TcpServer: the names of connections.
use hydrogen_web.Common.{ℕ, ◌≡◌, sym, ap, ◌∙◌, ◌∷◌, ◌++◌, drop, length, drop-append_self}
use hydrogen_web.Common.Bytes.{Bytes}
use hydrogen_web.Common.Decimal.{decimal, decimal-injective}
use hydrogen_web.Net.TcpServer.{conn_name}

append-injective : (xs ys zs : Bytes) → xs ++ ys ≡ xs ++ zs → ys ≡ zs
append-injective xs ys zs h =
    sym (drop-append_self xs ys) ∙ ap (drop (length xs)) h ∙ drop-append_self xs zs

-- The connections of a server have names that differ.
pub conn_name-injective :
    (server : Bytes) (i j : ℕ) → conn_name server i ≡ conn_name server j → i ≡ j
conn_name-injective server i j h =
    decimal-injective i j
      (ap (drop 1) (append-injective server (b'#' ∷ decimal i) (b'#' ∷ decimal j) h))
