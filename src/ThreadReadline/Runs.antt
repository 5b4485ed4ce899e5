-- ===== src/ThreadReadline/Runs.antt =====
-- Any order in which the threads go on.
use unix_network_programming.Prelude.{
  ℕ, zero, suc, ◌≤◌, ◌≡◌, refl, sym, Bool, true, false, not, ◌||◌, List, [], ◌∷◌, arith, replicate,
}
use unix_network_programming.Stream.{Socket}
use unix_network_programming.Stream.Laws.{IsStream}
use unix_network_programming.ThreadReadline.{
  Rline, Place, outside, inside, Process, Outcome, running, died, fault, Event, enter, go, ◌>>=◌,
  step, run, start, enters, goes,
}
use unix_network_programming.ThreadReadline.Calls.{work}
use unix_network_programming.ThreadReadline.Reads.{new_rline-IsRline}
use unix_network_programming.ThreadReadline.Shared.{Keeps}
use unix_network_programming.ThreadReadline.Steps.{
  GoesOn, Begins, work_of, goes-GoesOn, enters-Begins,
}

-- Whether some calloc() would fail
abbrev pub refuses : List Event → Bool
refuses [] = false
refuses (enter t maxlen memory ∷ es) = not memory || refuses es
refuses (go t ∷ es) = refuses es

or_true : (a b : Bool) → b ≡ true → (a || b) ≡ true
or_true true b h = refl
or_true false b h = h

module _ {S : Type 0} {k : Socket S} (law : IsStream k) (input : ℕ → List ℕ) where
  open law use {pending, patience}

  -- The thread `t` is back from its call.
  abbrev pub IsBack : ℕ → Outcome S → Type 0
  IsBack t (running q) = (q.threads t).place ≡ outside
  IsBack t died = ⊥
  IsBack t fault = ⊥

  work-zero : (s : S) (y : Place) → work law s y ≤ 0 → y ≡ outside
  work-zero s outside h = refl
  work-zero s (inside tsd maxlen n stored) h = absurd (omega arith)

  -- As many passes of a thread as there is work end its call.
  go-IsBack :
      (t n : ℕ) (p : Process S)
      → Keeps law input p
      → work_of law input p t ≤ n
      → IsBack t (run k (replicate n (go t)) p)
  unfolding run step
  go-IsBack t zero p v h = work-zero (p.threads t).sock (p.threads t).place h
  go-IsBack t (suc n) p v h =
      on (goes k p t (p.threads t).place) (goes-GoesOn law input p t (p.threads t).place refl v)
        (λ q w g. go-IsBack t n q w g)
    where
      on :
          (o : Outcome S)
          → GoesOn law input t (work_of law input p t) o
          → ((q : Process S)
              → Keeps law input q
              → work_of law input q t ≤ n
              → IsBack t (run k (replicate n (go t)) q))
          → IsBack t (o >>= run k (replicate n (go t)))
      on (running q) (w, g) ih = ih q w (omega (arith, g, h))
      on died g ih = g
      on fault g ih = g

  -- Behind the events `es`
  abbrev pub Serves : List Event → Outcome S → Type 0
  Serves es (running p) =
      Keeps law input p × ((t : ℕ) → IsBack t (run k (replicate (work_of law input p t) (go t)) p))
  Serves es died = refuses es ≡ true
  Serves es fault = ⊥

  run-Serves : (es : List Event) (p : Process S) → Keeps law input p → Serves es (run k es p)
  unfolding run step
  run-Serves [] p v = (v, λ t. go-IsBack t (work_of law input p t) p v (omega arith))
  run-Serves (enter t maxlen memory ∷ es) p v =
      on (enters k p t maxlen memory (p.threads t).place)
        (enters-Begins law input p t maxlen memory (p.threads t).place refl v)
        (λ q w. run-Serves es q w)
    where
      later : (o : Outcome S) → Serves es o → Serves (enter t maxlen memory ∷ es) o
      later (running q) g = g
      later died g = or_true (not memory) (refuses es) g
      later fault g = g

      on :
          (o : Outcome S)
          → Begins law input memory o
          → ((q : Process S) → Keeps law input q → Serves es (run k es q))
          → Serves (enter t maxlen memory ∷ es) (o >>= run k es)
      on (running q) w ih = later (run k es q) (ih q w)
      on died w ih = rw w refl
      on fault w ih = w
  run-Serves (go t ∷ es) p v =
      on (goes k p t (p.threads t).place) (goes-GoesOn law input p t (p.threads t).place refl v)
        (λ q w. run-Serves es q w)
    where
      later : (o : Outcome S) → Serves es o → Serves (go t ∷ es) o
      later (running q) g = g
      later died g = g
      later fault g = g

      on :
          (o : Outcome S)
          → GoesOn law input t (work_of law input p t) o
          → ((q : Process S) → Keeps law input q → Serves es (run k es q))
          → Serves (go t ∷ es) (o >>= run k es)
      on (running q) (w, g) ih = later (run k es q) (ih q w)
      on died w ih = absurd w
      on fault w ih = w

  start-Keeps :
      (mem : ℕ → Rline) (socks : ℕ → S)
      → ((t : ℕ) → pending (socks t) ≡ input t)
      → Keeps law input (start mem socks)
  unfolding start
  start-Keeps mem socks h = record {
    distinct = λ t u a e. cc;
    below = λ t a e. cc;
    owns = λ t. tt;
    each = λ t. record { valid = new_rline-IsRline; there = sym (h t) };
  }

module _ {S : Type 0} {k : Socket S} (law : IsStream k) where
  open law use {pending}

  -- Each thread reads from a stream of its own, and at first none has called readline(). In whatever order
  -- the threads enter their calls and go on in them, one pass of my_read() at a time, there is no
  -- access through a null pointer or outside a buffer, and the process exits only if a calloc() is
  -- given no memory. While it goes on, no two threads share an `Rline`, and a thread inside a call
  -- uses the one that its key gives. The answers of each thread, in order, cut its own stream: each
  -- call has stored the first line of what the calls before it left, of at most `maxlen - 1` bytes
  -- and through its newline, with a NUL behind it, and returned the line's length, or one more if the
  -- bound cut it; a call that failed, not by EINTR, has taken some first bytes that no later call
  -- returns. What follows is in the thread's `Rline` and its stream, or partly stored already if it
  -- is inside a call. At any moment a thread inside a call is back from it, if it goes on alone, after as
  -- many passes as the bytes that it may still store and the interruptions to come allow.
  pub run-start-Serves :
      (es : List Event) (mem : ℕ → Rline) (socks : ℕ → S)
      → Serves law (λ t. pending (socks t)) es (run k es (start mem socks))
  run-start-Serves es mem socks =
      run-Serves law (λ t. pending (socks t)) es (start mem socks)
        (start-Keeps law (λ t. pending (socks t)) mem socks (λ t. refl))
