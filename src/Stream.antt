-- ===== src/Stream.antt =====
-- lib/readn.c, lib/writen.c, lib/readline.c and lib/str_echo.c: byte streams over descriptors.
-- The system calls read() and write() are the parameter `Socket`; what the code relies on of them
-- is `IsStream`.
pub mod Laws
pub mod Exact
pub mod Echo
pub mod Replay
mod Tests
use unix_network_programming.Prelude.{
  ℕ, zero, suc, ◌+◌, ◌-◌, ◌%◌, ◌^◌, true, false, Option, none, some, List, [], ◌∷◌, ◌++◌, ltb,
  length, take, drop,
}

-- The values of `errno` that the library tells apart.
pub data Errno : Type 0 where
  eintr ewouldblock econnreset : Errno
  other : ℕ → Errno

-- What a read() returns: the bytes stored (none at the end of the file), or -1.
pub data Read (S : Type 0) : Type 0 where
  bytes : List ℕ → S → Read S
  error : Errno → S → Read S

-- What a write() returns: the number of bytes taken, or -1.
pub data Write (S : Type 0) : Type 0 where
  wrote : ℕ → S → Write S
  error : Errno → S → Write S

pub record Socket (S : Type 0) : Type 0 where
  pub read : S → ℕ → Read S
  pub write : S → List ℕ → Write S

-- `size_t` subtraction wraps.
abbrev pub sub_size : ℕ → ℕ → ℕ
sub_size a b = (a + 2 ^ 64 - b) % 2 ^ 64

-- How a transfer ends: with the bytes moved; with -1 after some bytes, and the errno that the failing
-- call has set, if it has set one; or not within the fuel.
pub data Transfer (S : Type 0) : Type 0 where
  done : List ℕ → S → Transfer S
  failed : Option Errno → List ℕ → S → Transfer S
  stuck : Transfer S

module _ {S : Type 0} where
  -- The rest of a round of readn(): `again` is the loop, with what is left to read and what is stored.
  pub after_read : (ℕ → List ℕ → S → Transfer S) → ℕ → List ℕ → Read S → Transfer S
  after_read again nleft got (error eintr s) = again nleft got s
  after_read again nleft got (error e s) = failed (some e) got s
  after_read again nleft got (bytes [] s) = done got s
  after_read again nleft got (bytes (x ∷ xs) s) =
      again (sub_size nleft (length (x ∷ xs))) (got ++ x ∷ xs) s

  -- The rest of a round of writen(): a write() that takes nothing is a failure.
  pub after_write :
      (ℕ → List ℕ → List ℕ → S → Transfer S) → ℕ → List ℕ → List ℕ → Write S → Transfer S
  after_write again nleft out rest (error eintr s) = again nleft out rest s
  after_write again nleft out rest (error e s) = failed (some e) out s
  after_write again nleft out rest (wrote zero s) = failed none out s
  after_write again nleft out rest (wrote (suc n) s) =
      again (sub_size nleft (suc n)) (out ++ take (suc n) rest) (drop (suc n) rest) s

module _ {S : Type 0} (k : Socket S) where
  -- The `while (nleft > 0)` of readn(); `got` is what stands in the buffer below `ptr`.
  pub readn_loop : ℕ → ℕ → List ℕ → S → Transfer S
  readn_loop zero nleft got s = stuck
  readn_loop (suc fuel) nleft got s = elim (ltb 0 nleft) [
    | false ↦ done got s
    | true ↦ after_read (readn_loop fuel) nleft got (k.read s nleft)
  ]

  pub readn : ℕ → ℕ → S → Transfer S
  readn fuel n s = readn_loop fuel n [] s

  -- The `while (nleft > 0)` of writen(); `rest` is what `ptr` points at, `out` what it has passed.
  pub writen_loop : ℕ → ℕ → List ℕ → List ℕ → S → Transfer S
  writen_loop zero nleft out rest s = stuck
  writen_loop (suc fuel) nleft out rest s = elim (ltb 0 nleft) [
    | false ↦ done out s
    | true ↦ after_write (writen_loop fuel) nleft out rest (k.write s (take nleft rest))
  ]

  pub writen : ℕ → List ℕ → S → Transfer S
  writen fuel xs s = writen_loop fuel (length xs) [] xs s

-- How a call ends that gives up by err_sys(): it has returned, the process has exited, or the fuel
-- has run out.
pub data Ending (S : Type 0) : Type 0 where
  finished : S → Ending S
  died : S → Ending S
  stuck : Ending S

module _ {S : Type 0} where
  -- Writen(): a short count is fatal, so what follows it runs only after a full write.
  pub or_die : Transfer S → (S → Ending S) → Ending S
  or_die (done out s) next = next s
  or_die (failed e out s) next = died s
  or_die stuck next = stuck

  -- The rest of a round of str_echo(): `write_all` is Writen(), `again` the loop.
  pub after_echo_read : (List ℕ → S → Transfer S) → (S → Ending S) → Read S → Ending S
  after_echo_read write_all again (error eintr s) = again s
  after_echo_read write_all again (error e s) = died s
  after_echo_read write_all again (bytes [] s) = finished s
  after_echo_read write_all again (bytes (x ∷ xs) s) = or_die (write_all (x ∷ xs) s) again

abbrev pub maxline : ℕ
maxline = 4096

-- str_echo(): `io` is the fuel of each Writen().
module _ {S : Type 0} (k : Socket S) (io : ℕ) where
  pub str_echo : ℕ → S → Ending S
  str_echo zero s = stuck
  str_echo (suc fuel) s = after_echo_read (writen k io) (str_echo fuel) (k.read s maxline)
