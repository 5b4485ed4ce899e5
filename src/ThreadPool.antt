-- ===== src/ThreadPool.antt =====
-- server/serv08.c, server/pthread08.c and server/pthread08.h: the main thread accepts connections and
-- puts them into a circular queue, from which a pool of threads takes them. Both work on the queue
-- under `clifd_mutex`, so an `Event` is one critical section.
pub mod Fifo
pub mod Dispatch
mod Tests
use unix_network_programming.Prelude.{
  ℕ, ◌+◌, true, false, Option, none, some, List, [], ◌∷◌, ◌++◌, ◌==◌, if◌then◌else◌, get_elem?, set,
  replicate,
}

abbrev pub maxncli : ℕ
maxncli = 32

-- `clifd`, `iget`, `iput` and the `thread_count` of each `Thread`. `accepted` are the descriptors that
-- the main thread has put in, `taken` those that a thread has taken, with its number.
pub record Pool : Type 0 where
  pub clifd : List ℕ
  pub iget : ℕ
  pub iput : ℕ
  pub thread_count : List ℕ
  pub accepted : List ℕ
  pub taken : List (ℕ × ℕ)

-- The pool goes on; err_quit("iput = iget"); an access outside an array.
pub data Outcome : Type 0 where
  running : Pool → Outcome
  quit : Outcome
  fault : Outcome

-- `if (++i == MAXNCLI) i = 0`
abbrev pub bump : ℕ → ℕ
bump i = if i + 1 == maxncli then 0 else i + 1

-- main(): the critical section after Accept() has returned `connfd`
pub put : Pool → ℕ → Outcome
put p connfd =
    let iput = bump p.iput in
    if iput == p.iget
    then quit
    else running (record p {
      clifd = set p.clifd p.iput connfd;
      iput = iput;
      accepted = p.accepted ++ connfd ∷ [];
    })

-- thread_main() after its critical section: `thread_count++` of thread `i`, which serves `connfd`
pub serve : Pool → ℕ → ℕ → Outcome
serve p i connfd = elim (get_elem? p.thread_count i) [
  | none ↦ fault
  | some n ↦ running (record p {
    iget = bump p.iget;
    thread_count = set p.thread_count i (n + 1);
    taken = p.taken ++ (i, connfd) ∷ [];
  })
]

-- thread_main() of thread `i`: it waits at an empty queue, else takes the connection at `iget`
pub get : Pool → ℕ → Outcome
get p i =
    if p.iget == p.iput
    then running p
    else elim (get_elem? p.clifd p.iget) [ none ↦ fault | some connfd ↦ serve p i connfd ]

pub data Event : Type 0 where
  accepts : ℕ → Event
  wakes : ℕ → Event

pub step : Pool → Event → Outcome
step p (accepts connfd) = put p connfd
step p (wakes i) = get p i

infixl 5 ◌>>=◌
abbrev pub ◌>>=◌ : Outcome → (Pool → Outcome) → Outcome
running p >>= f = f p
quit >>= f = quit
fault >>= f = fault

pub run : Pool → List Event → Outcome
run p [] = running p
run p (e ∷ es) = step p e >>= λ q. run q es

-- main() before its loop, with `nthreads` threads; `clifd` is a global array.
pub start : ℕ → Pool
start nthreads = record {
  clifd = replicate maxncli 0;
  iget = 0;
  iput = 0;
  thread_count = replicate nthreads 0;
  accepted = [];
  taken = [];
}
