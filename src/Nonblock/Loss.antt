-- ===== src/Nonblock/Loss.antt =====
-- The end of the socket's stream while stdout is slow.
use unix_network_programming.Prelude.{
  ◌-◌, ◌<◌, ◌≡◌, ◌≢◌, ap, true, [], arith, length, length-append,
}
use unix_network_programming.Stream.{maxline}
use unix_network_programming.Nonblock.{
  got, Round, Client, returned, window, select, from_stdin, sock_input, from_sock, step,
}
use unix_network_programming.Nonblock.Window.{length-window}
use unix_network_programming.Nonblock.Flow.{IsFlow}

unprinted : (c : Client) → IsFlow c → c.fr.optr < c.fr.iptr → c.printed ≢ c.received
unprinted c v h e = omega (
  arith,
  ap length v.fr_flow,
  ap length e,
  length-append c.printed (window c.fr),
  length-window c.fr v.fr_pipe,
)

-- In a turn that begins with stdin ended, bytes waiting for stdout, room in `fr` and the socket at its
-- end, str_cli() returns with those bytes unprinted.
pub step-loses :
    (c : Client) (r : Round)
    → IsFlow c
    → c.stdineof ≡ true
    → c.fr.optr < c.fr.iptr
    → c.fr.iptr < maxline
    → r.sock_ready ≡ true
    → r.read_sock (maxline - c.fr.iptr) ≡ got []
    → (d : Client) × (step c r ≡ returned d) × (d.printed ≢ d.received)
unfolding step from_stdin select from_sock sock_input
step-loses c r v eof waits room ready ends = (select r c, ground arith, unprinted c v waits)
