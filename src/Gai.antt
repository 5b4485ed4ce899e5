-- ===== src/Gai.antt =====
-- libgai/gai_hdr.h, ga_aistruct.c and freeaddrinfo.c: the entries that getaddrinfo() returns, and the
-- memory that they take. The entries of the linked list stand in their order.
pub mod Ports
pub mod Search
pub mod Resolve
pub mod Names
pub mod Memory
mod Tests
use unix_network_programming.Prelude.{
  ℕ, zero, suc, ◌+◌, ◌-◌, Bool, true, false, Option, none, some, List, [], ◌∷◌, ◌++◌, leb,
  if◌then◌else◌, length, take,
}

-- A string, without its NUL
abbrev pub Text : Type 0
Text = List ℕ

pub data Family : Type 0 where
  unspec inet inet6 local unknown : Family

-- `any` is 0.
pub data Socktype : Type 0 where
  any stream dgram raw unknown : Socktype

-- EAI_xxx
pub data Eai : Type 0 where
  addrfamily again badflags fail family memory nodata noname service socktype system : Eai

-- The caller's hints: AI_PASSIVE, AI_CANONNAME, whether another flag is set, and the other fields.
pub record Hints : Type 0 where
  pub passive : Bool
  pub canonname : Bool
  pub other_flags : Bool
  pub family : Family
  pub socktype : Socktype
  pub protocol : ℕ

-- A `sockaddr_in` or `sockaddr_in6`: the address and the port; a `sockaddr_un`: the path.
pub record SockAddr : Type 0 where
  pub bytes : List ℕ
  pub port : ℕ

-- `struct addrinfo`; `ai_clone` is AI_CLONE, and `none` a null pointer.
pub record AddrInfo : Type 0 where
  pub ai_clone : Bool
  pub ai_family : Family
  pub ai_socktype : Socktype
  pub ai_protocol : ℕ
  pub ai_canonname : Option Text
  pub ai_addr : Option SockAddr

-- The allocator: whether the next calls succeed (those behind the list do), and the blocks in use.
pub record Heap : Type 0 where
  pub answers : List Bool
  pub live : ℕ

-- calloc(), malloc() or strdup(): whether it succeeds
abbrev pub alloc : Heap → Bool × Heap
alloc h = elim h.answers [
  | [] ↦ (true, record h { live = h.live + 1 })
  | b ∷ bs ↦ (b, record { answers = bs; live = if b then h.live + 1 else h.live })
]

-- The locals of getaddrinfo(): the list at `aihead` and the saved name. `unlinked` are the paths that
-- unlink() was given.
pub record Lookup : Type 0 where
  pub ais : List AddrInfo
  pub canon : Option Text
  pub heap : Heap
  pub unlinked : List Text

-- sizeof(unp->sun_path)
abbrev pub sun_path_size : ℕ
sun_path_size = 108

abbrev pub is_any : Socktype → Bool
is_any any = true
is_any stream = false
is_any dgram = false
is_any raw = false
is_any unknown = false

-- The entry as it is linked in, before its address is there
abbrev pub linked : Hints → Family → AddrInfo
linked h f = record {
  ai_clone = is_any h.socktype;
  ai_family = f;
  ai_socktype = h.socktype;
  ai_protocol = h.protocol;
  ai_canonname = none;
  ai_addr = none;
}

-- The address is allocated and filled in: `before` are the entries before it, `e` is the new one.
unfoldable pub with_address :
    Lookup → List AddrInfo → AddrInfo → List ℕ → Bool × Heap → Option Eai × Lookup
with_address s before e addr (false, h) =
    (some memory, record s { heap = h; ais = before ++ e ∷ [] })
with_address s before e addr (true, h) = (
  none,
  record s {
    heap = h;
    ais = before ++ (record e { ai_addr = some (record { bytes = addr; port = 0 }) }) ∷ [];
  },
)

-- `if (hintsp->ai_flags & AI_PASSIVE) unlink(unp->sun_path);`
abbrev pub unlink : Hints → Text → Option Eai × Lookup → Option Eai × Lookup
unlink h path (none, t) =
    (none, record t { unlinked = if h.passive then t.unlinked ++ path ∷ [] else t.unlinked })
unlink h path (some e, t) = (some e, t)

-- The switch on the family
unfoldable pub fill : Lookup → Hints → AddrInfo → List ℕ → Family → Option Eai × Lookup
fill s h e addr inet = with_address s s.ais e (take 4 addr) (alloc s.heap)
fill s h e addr inet6 = with_address s s.ais e (take 16 addr) (alloc s.heap)
fill s h e addr local =
    if leb sun_path_size (length addr)
    then (some service, record s { ais = s.ais ++ e ∷ [] })
    else unlink h addr (with_address s s.ais e addr (alloc s.heap))
fill s h e addr unspec = (none, record s { ais = s.ais ++ e ∷ [] })
fill s h e addr unknown = (none, record s { ais = s.ais ++ e ∷ [] })

-- ga_aistruct() after its first calloc()
unfoldable pub aistruct_linked :
    Lookup → Hints → List ℕ → Family → Bool × Heap → Option Eai × Lookup
aistruct_linked s h addr f (false, heap) = (some memory, record s { heap = heap })
aistruct_linked s h addr f (true, heap) = fill (record s { heap = heap }) h (linked h f) addr f

unfoldable pub ga_aistruct : Lookup → Hints → List ℕ → Family → Option Eai × Lookup
ga_aistruct s h addr f = aistruct_linked s h addr f (alloc s.heap)

abbrev pub block {ℓ} : {A : Type ℓ} → Option A → ℕ
block none = 0
block (some x) = 1

-- freeaddrinfo(): the blocks that it frees
pub freed : List AddrInfo → ℕ
freed [] = 0
freed (e ∷ es) = block e.ai_addr + block e.ai_canonname + 1 + freed es

pub freeaddrinfo : List AddrInfo → Heap → Heap
freeaddrinfo es h = record h { live = h.live - freed es }
