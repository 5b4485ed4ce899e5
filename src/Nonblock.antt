-- ===== src/Nonblock.antt =====
-- nonblock/strclinonb.c: str_cli() with nonblocking descriptors, one buffer for each direction.
-- A `Round` is what the kernel does in one turn of the loop: the descriptors that Select() finds
-- ready, and the answer that each read() and write() would get for any request.
pub mod Window
pub mod Flow
pub mod Loss
mod Tests
use unix_network_programming.Prelude.{
  ℕ, ◌+◌, ◌-◌, ◌≤◌, Bool, true, false, not, ◌&&◌, List, [], ◌∷◌, ◌++◌, ltb, ◌==◌, if◌then◌else◌,
  length, take, drop,
}
use unix_network_programming.Stream.{maxline}

-- A read(): its bytes, none at the end of the file; EWOULDBLOCK; any other error.
pub data Input : Type 0 where
  got : List ℕ → Input
  would_block : Input
  bad : Input

-- A write(): the number of bytes taken; EWOULDBLOCK; any other error.
pub data Output : Type 0 where
  took : ℕ → Output
  would_block : Output
  bad : Output

pub record Round : Type 0 where
  pub stdin_ready : Bool
  pub sock_ready : Bool
  pub stdout_writable : Bool
  pub sock_writable : Bool
  pub read_stdin : ℕ → Input
  pub read_sock : ℕ → Input
  pub write_stdout : List ℕ → Output
  pub write_sock : List ℕ → Output

abbrev pub InputFits : ℕ → Input → Type 0
InputFits n (got xs) = length xs ≤ n
InputFits n _ = Unit {0}

abbrev pub OutputFits : List ℕ → Output → Type 0
OutputFits xs (took n) = n ≤ length xs
OutputFits xs _ = Unit {0}

-- No read() stores more than it was asked for, and no write() takes more than it was given.
pub record IsLegal (r : Round) : Type 0 where
  pub stdin_fits : (n : ℕ) → InputFits n (r.read_stdin n)
  pub sock_fits : (n : ℕ) → InputFits n (r.read_sock n)
  pub stdout_fits : (xs : List ℕ) → OutputFits xs (r.write_stdout xs)
  pub sock_takes : (xs : List ℕ) → OutputFits xs (r.write_sock xs)

-- A buffer `to` or `fr`, its pointers as indices: `iptr` is where the next read() stores, `optr`
-- what the next write() takes.
pub record Pipe : Type 0 where
  pub buf : List ℕ
  pub iptr : ℕ
  pub optr : ℕ

-- The locals of str_cli(), and what the descriptors have seen: the bytes that came from stdin and
-- from the socket, the bytes that went to the socket and to stdout, and the shutdowns.
pub record Client : Type 0 where
  pub to : Pipe
  pub fr : Pipe
  pub stdineof : Bool
  pub rset_stdin : Bool
  pub rset_sock : Bool
  pub wset_stdout : Bool
  pub wset_sock : Bool
  pub typed : List ℕ
  pub sent : List ℕ
  pub received : List ℕ
  pub printed : List ℕ
  pub fins : ℕ

-- The loop goes on, str_cli() returns, or the process exits with an error.
pub data Outcome : Type 0 where
  running : Client → Outcome
  returned : Client → Outcome
  died : Client → Outcome

infixl 5 ◌>>=◌
abbrev pub ◌>>=◌ : Outcome → (Client → Outcome) → Outcome
running c >>= f = f c
returned c >>= f = returned c
died c >>= f = died c

-- The bytes that wait between the pointers.
abbrev pub window : Pipe → List ℕ
window p = take (p.iptr - p.optr) (drop p.optr p.buf)

abbrev pub store : Pipe → List ℕ → Pipe
store p xs = record {
  buf = take p.iptr p.buf ++ (xs ++ drop (p.iptr + length xs) p.buf);
  iptr = p.iptr + length xs;
  optr = p.optr;
}

-- `optr += n`, and back to the beginning of the buffer when it is empty
abbrev pub advance : Pipe → ℕ → Pipe
advance p n =
    if p.optr + n == p.iptr
    then record { buf = p.buf; iptr = 0; optr = 0 }
    else record { buf = p.buf; iptr = p.iptr; optr = p.optr + n }

-- The sets that are passed to Select(), and what it leaves of them.
pub select : Round → Client → Client
select r c = record c {
  rset_stdin = not c.stdineof && ltb c.to.iptr maxline && r.stdin_ready;
  rset_sock = ltb c.fr.iptr maxline && r.sock_ready;
  wset_sock = not (c.to.optr == c.to.iptr) && r.sock_writable;
  wset_stdout = not (c.fr.optr == c.fr.iptr) && r.stdout_writable;
}

-- read() from stdin, on its outcome
pub stdin_input : Client → Input → Outcome
stdin_input c bad = died c
stdin_input c would_block = running c
stdin_input c (got []) =
    running
      (record c { stdineof = true; fins = if c.to.optr == c.to.iptr then c.fins + 1 else c.fins })
stdin_input c (got (x ∷ xs)) =
    running (record c { to = store c.to (x ∷ xs); typed = c.typed ++ x ∷ xs; wset_sock = true })

pub from_stdin : Round → Client → Outcome
from_stdin r c =
    if c.rset_stdin then stdin_input c (r.read_stdin (maxline - c.to.iptr)) else running c

-- read() from the socket, on its outcome
pub sock_input : Client → Input → Outcome
sock_input c bad = died c
sock_input c would_block = running c
sock_input c (got []) = if c.stdineof then returned c else died c
sock_input c (got (x ∷ xs)) =
    running
      (record c { fr = store c.fr (x ∷ xs); received = c.received ++ x ∷ xs; wset_stdout = true })

pub from_sock : Round → Client → Outcome
from_sock r c = if c.rset_sock then sock_input c (r.read_sock (maxline - c.fr.iptr)) else running c

-- write() to stdout, on its outcome
pub stdout_output : Client → Output → Outcome
stdout_output c bad = died c
stdout_output c would_block = running c
stdout_output c (took n) =
    running (record c { fr = advance c.fr n; printed = c.printed ++ take n (window c.fr) })

pub to_stdout : Round → Client → Outcome
to_stdout r c =
    if c.wset_stdout && ltb 0 (c.fr.iptr - c.fr.optr)
    then stdout_output c (r.write_stdout (window c.fr))
    else running c

-- write() to the socket, on its outcome
pub sock_output : Client → Output → Outcome
sock_output c bad = died c
sock_output c would_block = running c
sock_output c (took n) = running (record c {
  to = advance c.to n;
  sent = c.sent ++ take n (window c.to);
  fins = if (c.to.optr + n == c.to.iptr) && c.stdineof then c.fins + 1 else c.fins;
})

pub to_sock : Round → Client → Outcome
to_sock r c =
    if c.wset_sock && ltb 0 (c.to.iptr - c.to.optr)
    then sock_output c (r.write_sock (window c.to))
    else running c

-- One turn of the `for ( ; ; )`.
pub step : Client → Round → Outcome
step c r = from_stdin r (select r c) >>= from_sock r >>= to_stdout r >>= to_sock r

-- The state before the loop.
pub start : List ℕ → List ℕ → Client
start to fr = record {
  to = record { buf = to; iptr = 0; optr = 0 };
  fr = record { buf = fr; iptr = 0; optr = 0 };
  stdineof = false;
  rset_stdin = false;
  rset_sock = false;
  wset_stdout = false;
  wset_sock = false;
  typed = [];
  sent = [];
  received = [];
  printed = [];
  fins = 0;
}

-- The turns that the kernel provides, until str_cli() ends.
pub run : Client → List Round → Outcome
run c [] = running c
run c (r ∷ rs) = step c r >>= λ c'. run c' rs
