-- ===== src/WebThreads.antt =====
-- threads/web03.c: a thread for each file, and a main loop that waits for them on a condition variable.
pub mod Counted
pub mod Joining
mod Tests
use unix_network_programming.Prelude.{
  ℕ, zero, suc, ◌+◌, ◌-◌, ◌≤◌, ◌<◌, ◌≡◌, ◌⊎◌, Bool, true, false, Option, none, some, List, [], ◌∷◌,
  set, get_elem?, length, replicate,
}

-- A file: `f_flags` 0; F_CONNECTING or F_READING, with its thread at work; F_DONE, while the thread has not
-- counted itself in `ndone`; F_DONE, with the thread at its end; F_JOINED.
pub data File : Type 0 where
  idle reading done counted joined : File

-- Where main() is: in its loop that opens connections, or before the wait; at file[i] of the loop after the
-- wait, with `ndone_mutex`; at exit(); at err_quit().
pub data Place : Type 0 where
  opening : Place
  scanning : ℕ → Place
  finished : Place
  quit : Place

pub record Web : Type 0 where
  pub file : List File
  pub nconn : ℕ
  pub nlefttoconn : ℕ
  pub nlefttoread : ℕ
  pub ndone : ℕ
  pub place : Place

abbrev pub after : Option ℕ → Option ℕ
after none = none
after (some i) = some (suc i)

-- "find a file to read"
unfoldable pub first_idle : List File → Option ℕ
first_idle [] = none
first_idle (idle ∷ fs) = some 0
first_idle (f ∷ fs) = after (first_idle fs)

-- `f_flags & F_DONE`
abbrev pub is_done : File → Bool
is_done idle = false
is_done reading = false
is_done done = true
is_done counted = true
is_done joined = false

-- main() does not hold `ndone_mutex`.
abbrev pub IsFree : Place → Type 0
IsFree opening = Unit
IsFree (scanning i) = ⊥
IsFree finished = Unit
IsFree quit = Unit

-- A step of main() or of a thread, with at most `maxnconn` connections. Pthread_join() of a thread that has
-- not counted itself does not return, and there is no step for it. Nor is there one for a connection
-- that fails, since that ends the process.
pub data Step (maxnconn : ℕ) : Web → Web → Type 0 where
  read_all :
      (s : Web) (i : ℕ)
      → get_elem? s.file i ≡ some reading
      → Step maxnconn s (record s { file = set s.file i done })
  count_done :
      (s : Web) (i : ℕ)
      → get_elem? s.file i ≡ some done
      → IsFree s.place
      → Step maxnconn s (record s { file = set s.file i counted; ndone = s.ndone + 1 })
  open_file :
      (s : Web) (i : ℕ)
      → s.place ≡ opening
      → 0 < s.nlefttoread
      → s.nconn < maxnconn
      → 0 < s.nlefttoconn
      → first_idle s.file ≡ some i
      → Step maxnconn s (record s {
        file = set s.file i reading;
        nconn = s.nconn + 1;
        nlefttoconn = s.nlefttoconn - 1;
      })
  nothing_found :
      (s : Web)
      → s.place ≡ opening
      → 0 < s.nlefttoread
      → s.nconn < maxnconn
      → 0 < s.nlefttoconn
      → first_idle s.file ≡ none
      → Step maxnconn s (record s { place = quit })
  wake :
      (s : Web)
      → s.place ≡ opening
      → 0 < s.nlefttoread
      → (maxnconn ≤ s.nconn) ⊎ (s.nlefttoconn ≡ 0)
      → 0 < s.ndone
      → Step maxnconn s (record s { place = scanning 0 })
  skip :
      (s : Web) (i : ℕ) (f : File)
      → s.place ≡ scanning i
      → get_elem? s.file i ≡ some f
      → is_done f ≡ false
      → Step maxnconn s (record s { place = scanning (i + 1) })
  join :
      (s : Web) (i : ℕ)
      → s.place ≡ scanning i
      → get_elem? s.file i ≡ some counted
      → Step maxnconn s (record {
        file = set s.file i joined;
        nconn = s.nconn - 1;
        nlefttoconn = s.nlefttoconn;
        nlefttoread = s.nlefttoread - 1;
        ndone = s.ndone - 1;
        place = scanning (i + 1);
      })
  unlock :
      (s : Web) (i : ℕ)
      → s.place ≡ scanning i
      → i ≡ length s.file
      → Step maxnconn s (record s { place = opening })
  leave :
      (s : Web)
      → s.place ≡ opening
      → s.nlefttoread ≡ 0
      → Step maxnconn s (record s { place = finished })

-- Steps one after the other
pub data Reach (maxnconn : ℕ) (s : Web) : Web → Type 0 where
  here : Reach maxnconn s s
  next : {t u : Web} → Reach maxnconn s t → Step maxnconn t u → Reach maxnconn s u

-- Before the loop, with `n` files
abbrev pub start : ℕ → Web
start n = record {
  file = replicate n idle;
  nconn = 0;
  nlefttoconn = n;
  nlefttoread = n;
  ndone = 0;
  place = opening;
}
