-- ===== src/Readline.antt =====
-- lib/readline.c: lines through a buffer of MAXLINE bytes that lives from call to call.
pub mod Refill
pub mod Lines
mod Tests
use unix_network_programming.Prelude.{
  ℕ, zero, suc, ◌+◌, ◌-◌, true, false, Option, none, some, List, [], ◌∷◌, ◌++◌, ◌==◌, length, drop,
  get_elem?,
}
use unix_network_programming.Prelude.Int.{ℤ, pos, negsuc}
use unix_network_programming.Stream.{Errno, eintr, Read, bytes, error, Socket, maxline}

-- The statics `read_cnt`, `read_ptr` (as an index) and `read_buf`.
pub record Buffer : Type 0 where
  pub read_cnt : ℤ
  pub read_ptr : ℕ
  pub read_buf : List ℕ

-- What my_read() returns: 1 with a byte, 0, or -1. `fault` is a read past the end of `read_buf`.
pub data MyRead (S : Type 0) : Type 0 where
  char : ℕ → Buffer → S → MyRead S
  eof : Buffer → S → MyRead S
  failed : Errno → Buffer → S → MyRead S
  fault : MyRead S
  stuck : MyRead S

module _ {S : Type 0} where
  -- `read_cnt--; *ptr = *read_ptr++; return(1);`, where `read_cnt` is `suc n`
  unfoldable pub next_char : ℕ → Buffer → S → MyRead S
  next_char n b s = elim (get_elem? b.read_buf b.read_ptr) [
    | none ↦ fault
    | some c ↦ char c (record b { read_cnt = pos n; read_ptr = b.read_ptr + 1 }) s
  ]

  -- After the read() at `again:`, whose outcome is stored in `read_cnt`.
  unfoldable pub refill : (Buffer → S → MyRead S) → Buffer → Read S → MyRead S
  unfolding next_char
  refill again b (error eintr s) = again (record b { read_cnt = negsuc 0 }) s
  refill again b (error e s) = failed e (record b { read_cnt = negsuc 0 }) s
  refill again b (bytes [] s) = eof (record b { read_cnt = pos 0 }) s
  refill again b (bytes (x ∷ xs) s) =
      next_char (length xs)
        (record {
          read_cnt = pos (suc (length xs));
          read_ptr = 0;
          read_buf = (x ∷ xs) ++ drop (suc (length xs)) b.read_buf;
        })
        s

-- What readline() returns: `n` with the bytes that it stored, or -1 after some bytes.
pub data Line (S : Type 0) : Type 0 where
  line : ℕ → List ℕ → Buffer → S → Line S
  failed : Errno → List ℕ → Buffer → S → Line S
  fault : Line S
  stuck : Line S

module _ {S : Type 0} where
  -- A round of the `for` of readline(), after its my_read(); `again` goes on at `n + 1`.
  unfoldable pub after_char : (List ℕ → Buffer → S → Line S) → ℕ → List ℕ → MyRead S → Line S
  after_char again n stored (char c b s) = elim (c == b'\n') [
    | true ↦ line n (stored ++ c ∷ 0 ∷ []) b s
    | false ↦ again (stored ++ c ∷ []) b s
  ]
  after_char again n stored (eof b s) = line (n - 1) (stored ++ 0 ∷ []) b s
  after_char again n stored (failed e b s) = failed e stored b s
  after_char again n stored fault = fault
  after_char again n stored stuck = stuck

module _ {S : Type 0} (k : Socket S) where
  unfoldable pub my_read_again : ℕ → Buffer → S → MyRead S
  my_read_again zero b s = stuck
  my_read_again (suc fuel) b s = refill (my_read_again fuel) b (k.read s maxline)

  unfoldable pub my_read : ℕ → Buffer → S → MyRead S
  my_read fuel b s = elim b.read_cnt [ pos (suc n) ↦ next_char n b s | _ ↦ my_read_again fuel b s ]

  -- `rounds` counts `n` up to `maxlen`.
  unfoldable pub readline_loop : ℕ → ℕ → ℕ → List ℕ → Buffer → S → Line S
  readline_loop fuel zero n stored b s = line n (stored ++ 0 ∷ []) b s
  readline_loop fuel (suc rounds) n stored b s =
      after_char (readline_loop fuel rounds (n + 1)) n stored (my_read fuel b s)

  unfoldable pub readline : ℕ → ℕ → Buffer → S → Line S
  readline fuel maxlen b s = readline_loop fuel (maxlen - 1) 1 [] b s

-- readlinebuf(): the count, and where `*vptrptr` is set to, if it is set.
pub readlinebuf : Buffer → ℤ × Option ℕ
readlinebuf b = elim b.read_cnt [ pos zero ↦ (pos 0, none) | c ↦ (c, some b.read_ptr) ]
