-- ===== src/Icmpd/Tests.antt =====
-- Runs of the daemon, and the theorems at them.
use unix_network_programming.Prelude.{
  ℕ, ◌≡◌, ◌<◌, zero, suc, refl, ◌⊎◌, true, false, none, some, List, [], ◌∷◌, ◌++◌, arith, ◌==◌,
  replicate,
}
use unix_network_programming.Prelude.FdSet.{At, first_free}
use unix_network_programming.Cksum.{little, word}
use unix_network_programming.Icmpd.{
  inet, IcmpdErr, Action, notified, answered, closed, econnrefused, message, Daemon, Round, Outcome,
  running, readable_listen, client_err, client_ok, client_bound, client_named, client_socket,
  client_message, readable_conn, connfds,
}
use unix_network_programming.Icmpd.Answers.{Answers, readable_conn-Answers}
use unix_network_programming.Icmpd.Errors.{
  udp_error, outside, parse_udp, parse_inner_v4, parse_icmp_v4, parse_v4, parse_v6, deliver_to,
  deliver_entry, deliver, after_parse, received, readable_v4, readable_v6,
}
use unix_network_programming.Icmpd.Errors.Inside.{IsInside}
use unix_network_programming.Icmpd.Errors.Parsing.{parses-received, parse_v6-stale}
use unix_network_programming.Icmpd.Errors.Delivery.{Does, notices, deliver-tells}
use unix_network_programming.Icmpd.Loop.{
  Sockets, go_on, check_conn, check_entry, check_conns, handle, step, run, start,
}
use unix_network_programming.Icmpd.Loop.Valid.{KeepsClients}
use unix_network_programming.Icmpd.Loop.Turns.{run-start-KeepsClients}

abbrev sockets : Sockets
sockets = record { fd4 = 3; fd6 = 4; listenfd = 5 }

-- Port unreachable (3, 3) for a UDP datagram from port 1 to port 2
abbrev unreachable : List ℕ
unreachable =
    (69 ∷ replicate 19 0)
    ++ (3 ∷ 3 ∷ replicate 6 0)
    ++ (69 ∷ replicate 8 0)
    ++ (17 ∷ replicate 6 0)
    ++ (10 ∷ 0 ∷ 0 ∷ 7 ∷ [])
    ++ (1 ∷ 0 ∷ 2 ∷ 0 ∷ replicate 4 0)

abbrev quiet : Round
quiet = record {
  nready = 1;
  ready = λ fd. false;
  accept = 6;
  recv4 = none;
  stack4 = replicate 4096 0;
  recv6 = none;
  stack6 = replicate 4096 0;
  read_fd = λ fd. message (some 9);
  getsockname = λ fd. some (inet, 1);
  bind = λ fd. none;
  write = λ fd. true;
}

abbrev rounds : List Round
rounds =
    record quiet { ready = λ fd. fd == 5 }
    ∷ record quiet { ready = λ fd. fd == 6 }
    ∷ record quiet { ready = λ fd. fd == 3; recv4 = some unreachable }
    ∷ []

abbrev log_of : Outcome → List Action
log_of (running s) = s.log
log_of _ = []

told :
    log_of (run little sockets (start sockets) rounds)
    ≡ answered 6 true
      ∷ closed 9
      ∷ notified 6 (record {
        icmpd_errno = econnrefused;
        icmpd_type = 3;
        icmpd_code = 3;
        icmpd_dest = record { family = inet; addr = 10 ∷ 0 ∷ 0 ∷ 7 ∷ []; port = 2 ∷ 0 ∷ [] };
      })
      ∷ []
unfolding run step start handle go_on readable_listen readable_v4 readable_v6 after_parse parse_v4
    parse_icmp_v4 parse_inner_v4 parse_udp deliver deliver_entry deliver_to check_conns check_entry
    check_conn readable_conn client_message client_socket client_named client_ok client_bound
    client_err first_free
told = refl

run-start-KeepsClients_example :
    KeepsClients sockets
      (run little sockets (start sockets) (record quiet { ready = λ fd. fd == 5 } ∷ []))
unfolding run step start handle go_on readable_listen check_conns check_entry check_conn first_free
run-start-KeepsClients_example =
    run-start-KeepsClients little sockets (record quiet { ready = λ fd. fd == 5 } ∷ [])
      ((tt, tt, refl, refl), refl, tt)

-- Destination unreachable, port unreachable (1, 4), and the first eight bytes of an IPv6 header
abbrev cut_short : List ℕ
cut_short = (1 ∷ 4 ∷ replicate 6 0) ++ (96 ∷ replicate 5 0) ++ (17 ∷ 0 ∷ [])

parses-received_example :
    (IsInside (parse_v4 little (received cut_short (replicate 4096 5)) 16)
      × ((parse_v4 little cut_short 16 ≡ outside)
          ⊎ (parse_v4 little (received cut_short (replicate 4096 5)) 16
              ≡ parse_v4 little cut_short 16)))
    × (IsInside (parse_v6 little (received cut_short (replicate 4096 5)) 16)
        × ((parse_v6 little cut_short 16 ≡ outside)
            ⊎ (parse_v6 little (received cut_short (replicate 4096 5)) 16
                ≡ parse_v6 little cut_short 16)))
parses-received_example = parses-received little cut_short (replicate 4096 5) (omega arith) refl

parse_v6-stale_example :
    (e : IcmpdErr) × (parse_v6 little (received cut_short (replicate 4096 5)) 16
      ≡ udp_error (word little 5 5) e)
parse_v6-stale_example =
    parse_v6-stale little cut_short (replicate 4096 5) 1 4 5 5 5 5 (omega arith) (omega arith) refl
      refl refl refl (omega arith) (omega arith) refl refl refl refl

abbrev an_error : IcmpdErr
an_error = record {
  icmpd_errno = econnrefused;
  icmpd_type = 3;
  icmpd_code = 3;
  icmpd_dest = record { family = inet; addr = []; port = [] };
}

abbrev one_client : Daemon
one_client = record (start sockets) {
  client = record { connfd = some 6; family = inet; lport = some 1 } ∷ [];
  limit = 1;
}

deliver-tells_example :
    Does quiet inet 1 an_error one_client
      (notices quiet inet 1 an_error one_client.client)
      (deliver quiet inet 1 an_error 1 0 one_client)
unfolding start
deliver-tells_example = deliver-tells quiet inet 1 an_error one_client (omega arith) below
  where
    below : (i fd : ℕ) → At (connfds one_client.client) i fd → i < one_client.limit
    below zero fd h = omega arith
    below (suc i) fd h = cc

readable_conn-Answers_example :
    Answers 0 6 (some 9) one_client (
      readable_conn quiet 0 6
        (record { connfd = some 6; family = inet; lport = some 1 })
        one_client)
unfolding start
readable_conn-Answers_example =
    readable_conn-Answers 0 6 quiet (record { connfd = some 6; family = inet; lport = some 1 })
      one_client refl
