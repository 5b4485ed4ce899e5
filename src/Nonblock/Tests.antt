-- ===== src/Nonblock/Tests.antt =====
-- Turns of str_cli() against a small kernel, and the theorems at them.
use unix_network_programming.Prelude.{
  ℕ, ◌+◌, ◌≡◌, ◌≢◌, refl, true, false, List, [], ◌∷◌, arith, length, replicate, length-replicate,
  take, length-take,
}
use unix_network_programming.Nonblock.{
  got, took, Round, IsLegal, Client, Outcome, running, returned, start, run, step, select,
  from_stdin, stdin_input, from_sock, sock_input, to_stdout, stdout_output, to_sock, sock_output,
}
use unix_network_programming.Nonblock.Flow.{IsFlow, Keeps, run-start-Keeps}
use unix_network_programming.Nonblock.Loss.{step-loses}

-- All is ready; `typing` waits on stdin and `coming` on the socket, and a write() takes all.
abbrev turn : List ℕ → List ℕ → Round
turn typing coming = record {
  stdin_ready = true;
  sock_ready = true;
  stdout_writable = true;
  sock_writable = true;
  read_stdin = λ n. got (take n typing);
  read_sock = λ n. got (take n coming);
  write_stdout = λ xs. took (length xs);
  write_sock = λ xs. took (length xs);
}

turn-IsLegal : (typing coming : List ℕ) → IsLegal (turn typing coming)
turn-IsLegal typing coming = record {
  stdin_fits = λ n. omega (arith, length-take n typing);
  sock_fits = λ n. omega (arith, length-take n coming);
  stdout_fits = λ xs. omega arith;
  sock_takes = λ xs. omega arith;
}

abbrev blank : List ℕ
blank = replicate 4096 0

abbrev outcome : Outcome → List ℕ × List ℕ × ℕ
outcome (running c) = (c.sent, c.printed, c.fins)
outcome (returned c) = (c.sent, c.printed, c.fins + 10)
outcome _ = ([], [], 99)

session :
    outcome (run (start blank blank) (turn (1 ∷ 2 ∷ []) (7 ∷ []) ∷ turn [] (1 ∷ 2 ∷ []) ∷ []))
    ≡ (1 ∷ 2 ∷ [], 7 ∷ 1 ∷ 2 ∷ [], 1)
unfolding run step start select from_stdin stdin_input from_sock sock_input to_stdout stdout_output
    to_sock sock_output
session = refl

run-start-Keeps_example :
    Keeps (run (start blank blank) (turn (1 ∷ 2 ∷ []) (7 ∷ []) ∷ turn [] (1 ∷ 2 ∷ []) ∷ []))
run-start-Keeps_example =
    run-start-Keeps (turn (1 ∷ 2 ∷ []) (7 ∷ []) ∷ turn [] (1 ∷ 2 ∷ []) ∷ []) blank blank
      (turn-IsLegal (1 ∷ 2 ∷ []) (7 ∷ []), (turn-IsLegal [] (1 ∷ 2 ∷ []), tt))
      (length-replicate {A = ℕ} 4096 0) (length-replicate {A = ℕ} 4096 0)

-- Three bytes have come, one is printed, stdin has ended.
abbrev slow_stdout : Client
slow_stdout = record {
  to = record { buf = blank; iptr = 0; optr = 0 };
  fr = record { buf = 1 ∷ 2 ∷ 3 ∷ replicate 4093 0; iptr = 3; optr = 1 };
  stdineof = true;
  rset_stdin = false;
  rset_sock = true;
  wset_stdout = true;
  wset_sock = false;
  typed = [];
  sent = [];
  received = 1 ∷ 2 ∷ 3 ∷ [];
  printed = 1 ∷ [];
  fins = 1;
}

slow_stdout-IsFlow : IsFlow slow_stdout
slow_stdout-IsFlow = record {
  to_pipe = record {
    sized = length-replicate {A = ℕ} 4096 0;
    inside = omega arith;
    ordered = omega arith;
  };
  fr_pipe = record {
    sized = omega (arith, length-replicate {A = ℕ} 4093 0);
    inside = omega arith;
    ordered = omega arith;
  };
  to_flow = refl;
  fr_flow = refl;
  fins_once = refl;
}

step-loses_example :
    (d : Client) × (step slow_stdout (turn [] []) ≡ returned d) × (d.printed ≢ d.received)
step-loses_example =
    step-loses slow_stdout (turn [] []) slow_stdout-IsFlow refl (omega arith) (omega arith) refl
      refl
