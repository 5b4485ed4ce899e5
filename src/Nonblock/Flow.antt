-- ===== src/Nonblock/Flow.antt =====
-- Every byte that comes in is passed on once and in order, or waits in its buffer.
use unix_network_programming.Prelude.{
  ℕ, ◌-◌, ◌<◌, ◌≡◌, refl, ap, sym, ◌∙◌, Bool, true, false, not, ◌&&◌, List, [], ◌∷◌, ◌++◌, arith,
  length, take, ◌==◌, ltb, if◌then◌else◌, append_assoc,
}
use unix_network_programming.Stream.{maxline}
use unix_network_programming.Nonblock.{
  Input, got, would_block, bad, Output, took, Round, InputFits, OutputFits, IsLegal, Client,
  Outcome, running, returned, died, ◌>>=◌, window, advance, select, stdin_input, from_stdin,
  sock_input, from_sock, stdout_output, to_stdout, sock_output, to_sock, step, run, start,
}
use unix_network_programming.Nonblock.Window.{IsPipe, window-store, window-advance}

-- `typed` is what was sent with what waits in `to`, `received` what was printed with what waits in
-- `fr`; the socket is shut down for writing once, when stdin has ended and nothing waits in `to`.
pub record IsFlow (c : Client) : Type 0 where
  pub to_pipe : IsPipe c.to
  pub fr_pipe : IsPipe c.fr
  pub to_flow : c.sent ++ window c.to ≡ c.typed
  pub fr_flow : c.printed ++ window c.fr ≡ c.received
  pub fins_once : c.fins ≡ (if c.stdineof && (c.to.optr == c.to.iptr) then 1 else 0)

abbrev pub Keeps : Outcome → Type 0
Keeps (running c) = IsFlow c
Keeps (returned c) = IsFlow c × (c.stdineof ≡ true)
Keeps (died c) = IsFlow c

select-IsFlow : (r : Round) (c : Client) → IsFlow c → IsFlow (select r c)
unfolding select
select-IsFlow r c v = record {
  to_pipe = v.to_pipe;
  fr_pipe = v.fr_pipe;
  to_flow = v.to_flow;
  fr_flow = v.fr_flow;
  fins_once = v.fins_once;
}

stdin_input-Keeps :
    (c : Client) (i : Input)
    → IsFlow c
    → c.stdineof ≡ false
    → InputFits (maxline - c.to.iptr) i
    → Keeps (stdin_input c i)
unfolding stdin_input
stdin_input-Keeps c bad v e h = v
stdin_input-Keeps c would_block v e h = v
stdin_input-Keeps c (got []) v e h = record {
  to_pipe = v.to_pipe;
  fr_pipe = v.fr_pipe;
  to_flow = v.to_flow;
  fr_flow = v.fr_flow;
  fins_once = ground (arith, v.fins_once);
}
stdin_input-Keeps c (got (x ∷ xs)) v e h =
    let (w, p) = window-store c.to (x ∷ xs) v.to_pipe h in
    record {
      to_pipe = p;
      fr_pipe = v.fr_pipe;
      to_flow =
          rw w (sym (append_assoc c.sent (window c.to) (x ∷ xs)) ∙ ap (λ l. l ++ x ∷ xs) v.to_flow);
      fr_flow = v.fr_flow;
      fins_once = ground (arith, v.fins_once);
    }

sock_input-Keeps :
    (c : Client) (i : Input) → IsFlow c → InputFits (maxline - c.fr.iptr) i → Keeps (sock_input c i)
unfolding sock_input
sock_input-Keeps c bad v h = v
sock_input-Keeps c would_block v h = v
sock_input-Keeps c (got []) v h = ground (arith, v)
sock_input-Keeps c (got (x ∷ xs)) v h =
    let (w, p) = window-store c.fr (x ∷ xs) v.fr_pipe h in
    record {
      to_pipe = v.to_pipe;
      fr_pipe = p;
      to_flow = v.to_flow;
      fr_flow =
          rw w
            (sym (append_assoc c.printed (window c.fr) (x ∷ xs)) ∙ ap (λ l. l ++ x ∷ xs) v.fr_flow);
      fins_once = v.fins_once;
    }

stdout_output-Keeps :
    (c : Client) (o : Output) → IsFlow c → OutputFits (window c.fr) o → Keeps (stdout_output c o)
unfolding stdout_output
stdout_output-Keeps c bad v h = v
stdout_output-Keeps c would_block v h = v
stdout_output-Keeps c (took n) v h =
    let (w, p) = window-advance c.fr n v.fr_pipe h in
    record {
      to_pipe = v.to_pipe;
      fr_pipe = p;
      to_flow = v.to_flow;
      fr_flow =
          append_assoc c.printed (take n (window c.fr)) (window (advance c.fr n))
          ∙ ap (λ l. c.printed ++ l) w
          ∙ v.fr_flow;
      fins_once = v.fins_once;
    }

sock_output-Keeps :
    (c : Client) (o : Output)
    → IsFlow c
    → 0 < c.to.iptr - c.to.optr
    → OutputFits (window c.to) o
    → Keeps (sock_output c o)
unfolding sock_output
sock_output-Keeps c bad v p h = v
sock_output-Keeps c would_block v p h = v
sock_output-Keeps c (took n) v p h =
    let (w, q) = window-advance c.to n v.to_pipe h in
    record {
      to_pipe = q;
      fr_pipe = v.fr_pipe;
      to_flow =
          append_assoc c.sent (take n (window c.to)) (window (advance c.to n))
          ∙ ap (λ l. c.sent ++ l) w
          ∙ v.to_flow;
      fr_flow = v.fr_flow;
      fins_once = ground (arith, v.fins_once);
    }

>>=-Keeps :
    (o : Outcome) (f : Client → Outcome)
    → Keeps o
    → ((c : Client) → IsFlow c → Keeps (f c))
    → Keeps (o >>= f)
>>=-Keeps (running c) f h k = k c h
>>=-Keeps (returned c) f h k = h
>>=-Keeps (died c) f h k = h

if-Keeps :
    (b : Bool) (x y : Outcome)
    → (b ≡ true → Keeps x)
    → (b ≡ false → Keeps y)
    → Keeps (if b then x else y)
if-Keeps true x y f g = f refl
if-Keeps false x y f g = g refl

wanted : (e l s : Bool) → (not e && l && s) ≡ true → e ≡ false
wanted e l s h = ground arith

waiting : (w : Bool) (n : ℕ) → (w && ltb 0 n) ≡ true → 0 < n
waiting w n h = ground arith

module _ (r : Round) (legal : IsLegal r) where
  from_stdin-Keeps : (c : Client) → IsFlow c → Keeps (from_stdin r (select r c))
  unfolding from_stdin select
  from_stdin-Keeps c v =
      if-Keeps _ _ _
        (λ e.
          stdin_input-Keeps (select r c) _ (select-IsFlow r c v)
            (wanted c.stdineof (ltb c.to.iptr maxline) r.stdin_ready e)
            (legal.stdin_fits (maxline - c.to.iptr)))
        (λ e. select-IsFlow r c v)

  from_sock-Keeps : (c : Client) → IsFlow c → Keeps (from_sock r c)
  unfolding from_sock
  from_sock-Keeps c v =
      if-Keeps c.rset_sock _ (running c)
        (λ e. sock_input-Keeps c _ v (legal.sock_fits (maxline - c.fr.iptr))) (λ e. v)

  to_stdout-Keeps : (c : Client) → IsFlow c → Keeps (to_stdout r c)
  unfolding to_stdout
  to_stdout-Keeps c v =
      if-Keeps (c.wset_stdout && ltb 0 (c.fr.iptr - c.fr.optr)) _ (running c)
        (λ e. stdout_output-Keeps c _ v (legal.stdout_fits (window c.fr))) (λ e. v)

  to_sock-Keeps : (c : Client) → IsFlow c → Keeps (to_sock r c)
  unfolding to_sock
  to_sock-Keeps c v =
      if-Keeps (c.wset_sock && ltb 0 (c.to.iptr - c.to.optr)) _ (running c)
        (λ e.
          sock_output-Keeps c _ v (waiting c.wset_sock (c.to.iptr - c.to.optr) e)
            (legal.sock_takes (window c.to)))
        (λ e. v)

  step-Keeps : (c : Client) → IsFlow c → Keeps (step c r)
  unfolding step
  step-Keeps c v =
      >>=-Keeps _ (to_sock r)
        (>>=-Keeps _ (to_stdout r)
          (>>=-Keeps _ (from_sock r) (from_stdin-Keeps c v) from_sock-Keeps) to_stdout-Keeps)
        to_sock-Keeps

start-IsFlow : (to fr : List ℕ) → length to ≡ maxline → length fr ≡ maxline → IsFlow (start to fr)
unfolding start
start-IsFlow to fr h k = record {
  to_pipe = omega arith;
  fr_pipe = omega arith;
  to_flow = refl;
  fr_flow = refl;
  fins_once = ground arith;
}

abbrev pub AllLegal : List Round → Type 0
AllLegal [] = Unit {0}
AllLegal (r ∷ rs) = IsLegal r × AllLegal rs

run-Keeps : (rs : List Round) (c : Client) → AllLegal rs → IsFlow c → Keeps (run c rs)
unfolding run
run-Keeps [] c h v = v
run-Keeps (r ∷ rs) c h v =
    >>=-Keeps (step c r) (λ d. run d rs) (step-Keeps r h.0 c v) (λ d w. run-Keeps rs d h.1 w)

-- Whatever the kernel does within its rules, and at every turn: no read() stores outside a buffer and
-- the pointers stay in order; what was typed is what was sent and then what waits in `to`; what was
-- received is what was printed and then what waits in `fr`; and the socket is shut down for writing
-- exactly once, when stdin has ended and nothing waits in `to`. The same holds when str_cli() returns,
-- which it does only after stdin has ended, and when it dies.
pub run-start-Keeps :
    (rs : List Round) (to fr : List ℕ)
    → AllLegal rs
    → length to ≡ maxline
    → length fr ≡ maxline
    → Keeps (run (start to fr) rs)
run-start-Keeps rs to fr h p q = run-Keeps rs (start to fr) h (start-IsFlow to fr p q)
