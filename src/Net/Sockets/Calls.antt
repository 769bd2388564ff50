-- ===== src/Net/Sockets/Calls.antt =====
-- What the sockets use of the kernel and of the resolver, and what its documentation says of it.
use hydrogen_web.Common.{ℕ, ◌≡◌, Bool, Option, List, [], ◌∷◌, ◌==◌, if◌then◌else◌}
use hydrogen_web.Common.Bytes.{Bytes}
use hydrogen_web.Common.Int.{ℤ, pos, negsuc}

-- `struct addrinfo`, less the fields that the code does not read.
pub record AddrInfo {ℓ} (Addr : Type ℓ) : Type ℓ where
  pub family : ℕ
  pub socktype : ℕ
  pub protocol : ℕ
  pub addr : Addr

-- The calls. `log` stands for `unix_error`.
pub record Kernel {ℓ₁ ℓ₂} (World : Type ℓ₁) (Addr : Type ℓ₂) : Type (ℓ₁ ⊔ ℓ₂) where
  pub socket : ℕ → ℕ → ℕ → World → ℤ × World
  pub connect : ℕ → Addr → World → ℤ × World
  pub bind : ℕ → Addr → World → ℤ × World
  pub listen : ℕ → ℕ → World → ℤ × World
  pub accept : ℕ → World → ℤ × World
  pub setsockopt : ℕ → Bool → World → ℤ × World
  pub close : ℕ → World → ℤ × World
  pub shutdown : ℕ → World → ℤ × World
  pub getaddrinfo : Option Bytes → Bytes → World → (ℤ × List (AddrInfo Addr)) × World
  pub freeaddrinfo : World → World
  pub log : Bytes → World → World

-- The descriptors that are left when one is closed.
abbrev pub without : ℕ → List ℕ → List ℕ
without fd [] = []
without fd (d ∷ ds) = if d == fd then ds else d ∷ without fd ds

-- What a call that returns a descriptor does to the list of those that are open.
abbrev pub opens : List ℕ → ℤ → List ℕ
opens ds (pos fd) = fd ∷ ds
opens ds (negsuc n) = ds

-- Which descriptors are open, the latest first, and how the calls change that. `close` releases the
-- descriptor whatever it returns.
pub record Ledger {ℓ₁ ℓ₂} {World : Type ℓ₁} {Addr : Type ℓ₂} (k : Kernel World Addr)
    : Type (ℓ₁ ⊔ ℓ₂) where
  pub opened : World → List ℕ
  pub socket_opens :
      (d t p : ℕ) (w : World) → opened (k.socket d t p w).1 ≡ opens (opened w) (k.socket d t p w).0
  pub accept_opens :
      (fd : ℕ) (w : World) → opened (k.accept fd w).1 ≡ opens (opened w) (k.accept fd w).0
  pub close_closes : (fd : ℕ) (w : World) → opened (k.close fd w).1 ≡ without fd (opened w)
  pub connect_keeps : (fd : ℕ) (a : Addr) (w : World) → opened (k.connect fd a w).1 ≡ opened w
  pub bind_keeps : (fd : ℕ) (a : Addr) (w : World) → opened (k.bind fd a w).1 ≡ opened w
  pub listen_keeps : (fd n : ℕ) (w : World) → opened (k.listen fd n w).1 ≡ opened w
  pub setsockopt_keeps : (fd : ℕ) (b : Bool) (w : World) → opened (k.setsockopt fd b w).1 ≡ opened w
  pub getaddrinfo_keeps :
      (h : Option Bytes) (p : Bytes) (w : World) → opened (k.getaddrinfo h p w).1 ≡ opened w
  pub freeaddrinfo_keeps : (w : World) → opened (k.freeaddrinfo w) ≡ opened w
  pub log_keeps : (m : Bytes) (w : World) → opened (k.log m w) ≡ opened w
