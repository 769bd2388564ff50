-- ===== src/Net/Sockets/Descriptors.antt =====
-- Sockets: no descriptor is lost.
use hydrogen_web.Common.{
  ℕ, zero, suc, ◌≡◌, refl, ap, subst, ◌∙◌, Bool, true, false, none, some, List, [], ◌∷◌, ◌==◌,
  ==_iff, if◌then◌else◌,
}
use hydrogen_web.Common.Bytes.{Bytes, codes}
use hydrogen_web.Common.Int.{ℤ, pos, negsuc}
use hydrogen_web.Common.Fault.{ok, ◌>>=◌, ok-injective}
use hydrogen_web.Net.Sockets.Calls.{Kernel, AddrInfo, Ledger, without, opens}
use hydrogen_web.Net.Sockets.{
  is_negative, Tried, found, exhausted, close_failed, checked, checked_or_abort, listen_on,
  accept_from, set_reuse, close_fd, attempted, close_and_go_on, socketed, try_addresses,
  connected_by, try_connect, bound_by, try_bind, connected_result, resolved_client, open_client_fd,
  listening_result, resolved_server, open_listen_fd, destroy_socket, move_socket, incoming,
  incoming_handler,
}

without_first : (fd : ℕ) (ds : List ℕ) → without fd (fd ∷ ds) ≡ ds
without_first fd ds = let e : (fd == fd) ≡ true = (==_iff fd fd).1 refl in rw (e) refl

-- What the loop over the addresses leaves open.
abbrev kept : List ℕ → Tried → List ℕ
kept ds (found fd) = fd ∷ ds
kept ds exhausted = ds
kept ds close_failed = ds

module _ {ℓ₁ ℓ₂} {World : Type ℓ₁} {Addr : Type ℓ₂} (k : Kernel World Addr) (l : Ledger k) where
  checked_keeps : (m : Bytes) (r : ℤ × World) → l.opened (checked k m r).1 ≡ l.opened r.1
  unfolding checked
  checked_keeps m (pos n, w) = refl
  checked_keeps m (negsuc n, w) = l.log_keeps m w

  checked_value : (m : Bytes) (r : ℤ × World) → (checked k m r).0 ≡ r.0
  unfolding checked
  checked_value m (pos n, w) = refl
  checked_value m (negsuc n, w) = refl

  close_fd-opened : (fd : ℕ) (w : World) → l.opened (close_fd k fd w).1 ≡ without fd (l.opened w)
  unfolding close_fd
  close_fd-opened fd w = checked_keeps _ (k.close fd w) ∙ l.close_closes fd w

  -- The attempts leave the list as it is.
  abbrev Keeps : (ℕ → Addr → World → Bool × World) → Type (ℓ₁ ⊔ ℓ₂)
  Keeps attempt = (fd : ℕ) (a : Addr) (w : World) → l.opened (attempt fd a w).1 ≡ l.opened w

  connected_by_world : (r : ℤ × World) → (connected_by k r).1 ≡ r.1
  connected_by_world (pos n, w) = refl
  connected_by_world (negsuc zero, w) = refl
  connected_by_world (negsuc (suc n), w) = refl

  bound_by_world : (r : ℤ × World) → (bound_by k r).1 ≡ r.1
  bound_by_world (pos zero, w) = refl
  bound_by_world (pos (suc n), w) = refl
  bound_by_world (negsuc n, w) = refl

  try_connect-Keeps : Keeps (try_connect k)
  unfolding try_connect
  try_connect-Keeps fd a w =
      ap l.opened (connected_by_world (k.connect fd a w)) ∙ l.connect_keeps fd a w

  try_bind-Keeps : Keeps (try_bind k)
  unfolding try_bind set_reuse
  try_bind-Keeps fd a w =
      let w' = (set_reuse k fd true w).1 in
      ap l.opened (bound_by_world (k.bind fd a w'))
      ∙ l.bind_keeps fd a w'
      ∙ checked_keeps _ (k.setsockopt fd true w)
      ∙ l.setsockopt_keeps fd true w

  -- What is left open by a part of the loop, where `ds` was before it.
  abbrev Leaves : List ℕ → Tried × World → Type 0
  Leaves ds r = l.opened r.1 ≡ kept ds r.0

  went_on :
      (rest : World → Tried × World)
      → ((w : World) → Leaves (l.opened w) (rest w))
      → (ds : List ℕ) (r : ℤ × World) → l.opened r.1 ≡ ds
      → Leaves ds (close_and_go_on k rest r)
  went_on rest ih ds (pos n, w) h = ih w ∙ ap (λ e. kept e (rest w).0) h
  went_on rest ih ds (negsuc n, w) h = h

  attempted_lem :
      (rest : World → Tried × World)
      → ((w : World) → Leaves (l.opened w) (rest w))
      → (ds : List ℕ) (fd : ℕ) (r : Bool × World) → l.opened r.1 ≡ fd ∷ ds
      → Leaves ds (attempted k rest fd r)
  attempted_lem rest ih ds fd (true, w) h = h
  attempted_lem rest ih ds fd (false, w) h =
      went_on rest ih ds (close_fd k fd w)
        (close_fd-opened fd w ∙ ap (without fd) h ∙ without_first fd ds)

  socketed_lem :
      (attempt : ℕ → Addr → World → Bool × World)
      → Keeps attempt
      → (rest : World → Tried × World) → ((w : World) → Leaves (l.opened w) (rest w))
      → (ds : List ℕ) (a : Addr) (r : ℤ × World) → l.opened r.1 ≡ opens ds r.0
      → Leaves ds (socketed k attempt rest a r)
  socketed_lem attempt keeps rest ih ds a (pos fd, w) h =
      attempted_lem rest ih ds fd (attempt fd a w) (keeps fd a w ∙ h)
  socketed_lem attempt keeps rest ih ds a (negsuc n, w) h = ih w ∙ ap (λ e. kept e (rest w).0) h

  try_addresses-opened :
      (attempt : ℕ → Addr → World → Bool × World)
      → Keeps attempt
      → (ps : List (AddrInfo Addr)) (w : World)
      → l.opened (try_addresses k attempt ps w).1
        ≡ kept (l.opened w) (try_addresses k attempt ps w).0
  unfolding try_addresses
  try_addresses-opened attempt keeps [] w = refl
  try_addresses-opened attempt keeps (p ∷ ps) w =
      socketed_lem attempt keeps (try_addresses k attempt ps)
        (try_addresses-opened attempt keeps ps) (l.opened w) p.addr
        (k.socket p.family p.socktype p.protocol w)
        (l.socket_opens p.family p.socktype p.protocol w)

  connected_result_lem :
      (ds : List ℕ) (r : Tried × World)
      → Leaves ds r
      → l.opened (connected_result k r).1 ≡ opens ds (connected_result k r).0
  connected_result_lem ds (found fd, w) h = l.freeaddrinfo_keeps w ∙ h
  connected_result_lem ds (exhausted, w) h = l.freeaddrinfo_keeps w ∙ h
  connected_result_lem ds (close_failed, w) h = h

  resolved_client_lem :
      (ds : List ℕ) (r : (ℤ × List (AddrInfo Addr)) × World)
      → l.opened r.1 ≡ ds
      → l.opened (resolved_client k r).1 ≡ opens ds (resolved_client k r).0
  resolved_client_lem ds ((pos zero, ps), w) h =
      connected_result_lem ds (try_addresses k (try_connect k) ps w) (
        try_addresses-opened (try_connect k) try_connect-Keeps ps w
        ∙ ap (λ e. kept e (try_addresses k (try_connect k) ps w).0) h)
  resolved_client_lem ds ((pos (suc n), ps), w) h = h
  resolved_client_lem ds ((negsuc n, ps), w) h = h

  listened :
      (ds : List ℕ) (fd : ℕ) (q : ℤ × World) (r : ℤ × World)
      → l.opened q.1 ≡ fd ∷ ds
      → (checked_or_abort k (codes "Listen error") q >>= λ p.
          ok (if is_negative p.0 then (negsuc 0, (close_fd k fd p.1).1) else (pos fd, p.1)))
        ≡ ok r
      → l.opened r.1 ≡ opens ds r.0
  unfolding checked_or_abort
  listened ds fd (pos n, w) r h run = subst (λ p. l.opened p.1 ≡ opens ds p.0) (ok-injective run) h
  listened ds fd (negsuc n, w) r h run = cc

  listening_result_lem :
      (ds : List ℕ) (t : Tried × World) (r : ℤ × World)
      → Leaves ds t
      → listening_result k t ≡ ok r
      → l.opened r.1 ≡ opens ds r.0
  unfolding listen_on
  listening_result_lem ds (found fd, w) r h run =
      listened ds fd (k.listen fd 1024 (k.freeaddrinfo w)) r
        (l.listen_keeps fd 1024 (k.freeaddrinfo w) ∙ l.freeaddrinfo_keeps w ∙ h) run
  listening_result_lem ds (exhausted, w) r h run =
      subst (λ p. l.opened p.1 ≡ opens ds p.0) (ok-injective run) (l.freeaddrinfo_keeps w ∙ h)
  listening_result_lem ds (close_failed, w) r h run =
      subst (λ p. l.opened p.1 ≡ opens ds p.0) (ok-injective run) h

  resolved_server_lem :
      (ds : List ℕ) (q : (ℤ × List (AddrInfo Addr)) × World) (r : ℤ × World)
      → l.opened q.1 ≡ ds
      → resolved_server k q ≡ ok r
      → l.opened r.1 ≡ opens ds r.0
  resolved_server_lem ds ((pos zero, ps), w) r h run =
      listening_result_lem ds (try_addresses k (try_bind k) ps w) r
        (try_addresses-opened (try_bind k) try_bind-Keeps ps w
          ∙ ap (λ e. kept e (try_addresses k (try_bind k) ps w).0) h)
        run
  resolved_server_lem ds ((pos (suc n), ps), w) r h run =
      subst (λ p. l.opened p.1 ≡ opens ds p.0) (ok-injective run) h
  resolved_server_lem ds ((negsuc n, ps), w) r h run =
      subst (λ p. l.opened p.1 ≡ opens ds p.0) (ok-injective run) h

  -- `openClientFd` leaves open what was open, and, where it returns a descriptor, that descriptor: none
  -- of the sockets that it tried in vain is left.
  pub open_client_fd-opened :
      (host port : Bytes) (w : World)
      → l.opened (open_client_fd k host port w).1
        ≡ opens (l.opened w) (open_client_fd k host port w).0
  unfolding open_client_fd
  open_client_fd-opened host port w =
      resolved_client_lem (l.opened w) (k.getaddrinfo (some host) port w)
        (l.getaddrinfo_keeps (some host) port w)

  -- `openListenFd`, where it does not abort, leaves open what was open, and, where it returns a
  -- descriptor, that descriptor.
  pub open_listen_fd-opened :
      (port : Bytes) (w : World) (r : ℤ × World)
      → open_listen_fd k port w ≡ ok r
      → l.opened r.1 ≡ opens (l.opened w) r.0
  unfolding open_listen_fd
  open_listen_fd-opened port w r run =
      resolved_server_lem (l.opened w) (k.getaddrinfo none port w) r
        (l.getaddrinfo_keeps none port w) run

  not_taken :
      (ds : List ℕ) (r : ℤ × World)
      → l.opened r.1 ≡ opens ds r.0
      → l.opened (incoming k none (checked k (codes "Accept error") r)) ≡ ds
  unfolding checked
  not_taken ds (pos fd, w) h = close_fd-opened fd w ∙ ap (without fd) h ∙ without_first fd ds
  not_taken ds (negsuc n, w) h = l.log_keeps (codes "Accept error") w ∙ h

  -- The socket goes to the callback, and stays open.
  handed_over :
      (ds : List ℕ) (callback : ℤ → World → World) (r : ℤ × World)
      → ((s : ℤ) (v : World) → l.opened (callback s v) ≡ l.opened v)
      → l.opened r.1 ≡ opens ds r.0
      → l.opened (incoming k (some callback) (checked k (codes "Accept error") r)) ≡ opens ds r.0
  unfolding checked destroy_socket move_socket
  handed_over ds callback (pos fd, w) keeps h = keeps (pos fd) w ∙ h
  handed_over ds callback (negsuc n, w) keeps h = l.log_keeps (codes "Accept error") w ∙ h

  -- Without a callback the acceptor closes the connection that it accepts: what is open stays. With a
  -- callback that, with what becomes of its own socket, neither opens nor closes anything, the descriptor of an accepted connection, handed to it
  -- in a socket, is open behind `incomingHandler`, once, besides what was open; and where `accept` fails,
  -- what is open stays.
  pub incoming_handler-opened :
      (listen_fd : ℕ) (callback : ℤ → World → World) (w : World)
      → ((s : ℤ) (v : World) → l.opened (callback s v) ≡ l.opened v)
      → (l.opened (incoming_handler k listen_fd none w) ≡ l.opened w)
        × (l.opened (incoming_handler k listen_fd (some callback) w)
            ≡ opens (l.opened w) (k.accept listen_fd w).0)
  unfolding incoming_handler accept_from
  incoming_handler-opened listen_fd callback w keeps = (
    not_taken (l.opened w) (k.accept listen_fd w) (l.accept_opens listen_fd w),
    handed_over (l.opened w) callback (k.accept listen_fd w) keeps (l.accept_opens listen_fd w),
  )
