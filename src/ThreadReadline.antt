-- ===== src/ThreadReadline.antt =====
-- threads/readline.c: readline() with an `Rline` for each thread, which it finds by a key of
-- thread-specific data. The threads share the memory; an `Event` is what one of them does next.
pub mod Reads
pub mod Calls
pub mod Passes
pub mod Shared
pub mod Steps
pub mod Runs
mod Tests
use unix_network_programming.Prelude.{
  ℕ, zero, suc, ◌+◌, ◌-◌, Bool, true, false, Option, none, some, List, [], ◌∷◌, ◌++◌, ◌==◌, ltb,
  if◌then◌else◌, length, drop, get_elem?, replicate,
}
use unix_network_programming.Prelude.Int.{ℤ, pos, negsuc}
use unix_network_programming.Stream.{Errno, eintr, Read, bytes, error, Socket, maxline}

-- `Rline`; `rl_bufptr` is an index of `rl_buf`, or null.
pub record Rline : Type 0 where
  pub rl_cnt : ℤ
  pub rl_bufptr : Option ℕ
  pub rl_buf : List ℕ

-- Calloc(1, sizeof(Rline))
abbrev pub new_rline : Rline
new_rline = record { rl_cnt = pos 0; rl_bufptr = none; rl_buf = replicate maxline 0 }

-- A pass of my_read(): it returns 1 with a byte, 0, or -1, or it goes to `again`. `fault` is a read through
-- a null pointer or outside `rl_buf`.
pub data MyRead (S : Type 0) : Type 0 where
  char : ℕ → Rline → S → MyRead S
  eof : Rline → S → MyRead S
  failed : Errno → Rline → S → MyRead S
  again : Rline → S → MyRead S
  fault : MyRead S

-- What a call of readline() with the bound `maxlen` returns: `n` with the bytes that it stored, or -1.
pub data Answer : Type 0 where
  returned : (maxlen n : ℕ) (stored : List ℕ) → Answer
  minus_one : Errno → List ℕ → Answer

-- Where a thread is: outside readline(), or at the head of its loop or at `again`, with the locals.
pub data Place : Type 0 where
  outside : Place
  inside : (tsd maxlen n : ℕ) (stored : List ℕ) → Place

-- A thread with the state of its descriptor; `answers` are those of the calls it has made.
pub record Thread (S : Type 0) : Type 0 where
  pub sock : S
  pub place : Place
  pub answers : List Answer

-- The process: `rl_key`, when it is made, gives each thread's value; the addresses from `next` on
-- are free.
pub record Process (S : Type 0) : Type 0 where
  pub rl_key : Option (ℕ → Option ℕ)
  pub mem : ℕ → Rline
  pub next : ℕ
  pub threads : ℕ → Thread S

-- The process goes on; Calloc() has failed, and it has exited; a fault.
pub data Outcome (S : Type 0) : Type 0 where
  running : Process S → Outcome S
  died : Outcome S
  fault : Outcome S

-- A thread calls readline(), and whether calloc() would succeed; or it goes on inside it.
pub data Event : Type 0 where
  enter : (t maxlen : ℕ) (memory : Bool) → Event
  go : (t : ℕ) → Event

abbrev pub update : {A : Type 0} → (ℕ → A) → ℕ → A → ℕ → A
update f i x j = if j == i then x else f j

-- Pthread_once(&rl_once, readline_once): a new key is null in every thread.
abbrev pub once : Option (ℕ → Option ℕ) → ℕ → Option ℕ
once none = λ t. none
once (some values) = values

module _ {S : Type 0} where
  infixl 5 ◌>>=◌
  abbrev pub ◌>>=◌ : Outcome S → (Process S → Outcome S) → Outcome S
  running p >>= f = f p
  died >>= f = died
  fault >>= f = fault

  -- `tsd->rl_cnt--; *ptr = *tsd->rl_bufptr++; return(1);`, where `rl_cnt` is `suc n`
  unfoldable pub next_char : ℕ → Rline → S → MyRead S
  next_char n r s = elim r.rl_bufptr [
    | none ↦ fault
    | some i ↦ elim (get_elem? r.rl_buf i) [
      | none ↦ fault
      | some c ↦ char c (record r { rl_cnt = pos n; rl_bufptr = some (i + 1) }) s
    ]
  ]

  -- After the read() at `again:`, whose outcome is stored in `rl_cnt`.
  unfoldable pub refill : Rline → Read S → MyRead S
  unfolding next_char
  refill r (error eintr s) = again (record r { rl_cnt = negsuc 0 }) s
  refill r (error e s) = failed e (record r { rl_cnt = negsuc 0 }) s
  refill r (bytes [] s) = eof (record r { rl_cnt = pos 0 }) s
  refill r (bytes (x ∷ xs) s) =
      next_char (length xs)
        (record {
          rl_cnt = pos (suc (length xs));
          rl_bufptr = some 0;
          rl_buf = (x ∷ xs) ++ drop (suc (length xs)) r.rl_buf;
        })
        s

  -- A pass of the `for` of readline(), after that of my_read(): what is at `tsd`, and the thread.
  unfoldable pub after_my_read :
      ℕ → ℕ → ℕ → List ℕ → List Answer → MyRead S → Option (Rline × Thread S)
  after_my_read tsd maxlen n stored answers (char c r s) = elim (c == b'\n') [
    | true ↦ some (
      r,
      record {
        sock = s;
        place = outside;
        answers = answers ++ returned maxlen n (stored ++ c ∷ 0 ∷ []) ∷ [];
      },
    )
    | false ↦ some (
      r,
      record { sock = s; place = inside tsd maxlen (n + 1) (stored ++ c ∷ []); answers = answers },
    )
  ]
  after_my_read tsd maxlen n stored answers (eof r s) = some (
    r,
    record {
      sock = s;
      place = outside;
      answers = answers ++ returned maxlen (n - 1) (stored ++ 0 ∷ []) ∷ [];
    },
  )
  after_my_read tsd maxlen n stored answers (failed e r s) =
      some (r, record { sock = s; place = outside; answers = answers ++ minus_one e stored ∷ [] })
  after_my_read tsd maxlen n stored answers (again r s) =
      some (r, record { sock = s; place = inside tsd maxlen n stored; answers = answers })
  after_my_read tsd maxlen n stored answers fault = none

  -- `*ptr = 0; return(n);` behind the loop
  unfoldable pub at_bound : ℕ → ℕ → List ℕ → Thread S → Thread S
  at_bound maxlen n stored x = record x {
    place = outside;
    answers = x.answers ++ returned maxlen n (stored ++ 0 ∷ []) ∷ [];
  }

  -- `pthread_getspecific(rl_key)`, and if it is null, Calloc() and Pthread_setspecific()
  unfoldable pub begin : Process S → ℕ → ℕ → Bool → (ℕ → Option ℕ) → Option ℕ → Outcome S
  begin p t maxlen memory key (some a) = running (record p {
    rl_key = some key;
    threads = update p.threads t (record (p.threads t) { place = inside a maxlen 1 [] });
  })
  begin p t maxlen true key none = running (record {
    rl_key = some (update key t (some p.next));
    mem = update p.mem p.next new_rline;
    next = suc p.next;
    threads = update p.threads t (record (p.threads t) { place = inside p.next maxlen 1 [] });
  })
  begin p t maxlen false key none = died

  -- What the thread `t` leaves at `a`
  abbrev pub left_at : Process S → ℕ → ℕ → Option (Rline × Thread S) → Outcome S
  left_at p t a none = fault
  left_at p t a (some (r, x)) =
      running (record p { mem = update p.mem a r; threads = update p.threads t x })

module _ {S : Type 0} (k : Socket S) where
  unfoldable pub my_read : Rline → S → MyRead S
  my_read r s = elim r.rl_cnt [ pos (suc n) ↦ next_char n r s | _ ↦ refill r (k.read s maxline) ]

  -- A pass of `for (n = 1; n < maxlen; n++)`, or the end of it
  unfoldable pub pass : Thread S → Rline → (tsd maxlen n : ℕ) → List ℕ → Option (Rline × Thread S)
  pass x r tsd maxlen n stored =
      if ltb n maxlen
      then after_my_read tsd maxlen n stored x.answers (my_read r x.sock)
      else some (r, at_bound maxlen n stored x)

  -- A thread inside a call makes no other call, and one outside has nowhere to go on.
  unfoldable pub enters : Process S → ℕ → ℕ → Bool → Place → Outcome S
  enters p t maxlen memory (inside a m n stored) = running p
  enters p t maxlen memory outside = begin p t maxlen memory (once p.rl_key) (once p.rl_key t)

  unfoldable pub goes : Process S → ℕ → Place → Outcome S
  goes p t outside = running p
  goes p t (inside a maxlen n stored) =
      left_at p t a (pass (p.threads t) (p.mem a) a maxlen n stored)

  unfoldable pub step : Process S → Event → Outcome S
  step p (enter t maxlen memory) = enters p t maxlen memory (p.threads t).place
  step p (go t) = goes p t (p.threads t).place

  unfoldable pub run : List Event → Process S → Outcome S
  run [] p = running p
  run (e ∷ es) p = step p e >>= run es

-- A process whose threads have not called yet; the memory may hold anything.
unfoldable pub start : {S : Type 0} → (ℕ → Rline) → (ℕ → S) → Process S
start mem socks = record {
  rl_key = none;
  mem = mem;
  next = 0;
  threads = λ t. record { sock = socks t; place = outside; answers = [] };
}
