-- ===== src/Lib.antt =====
-- The programs over TCP, UDP and raw sockets in src_code/unpv13e, as functions of a kernel.
--
-- The kernel is outside the repository. What it answers is a parameter: a function of its state for
-- readn(), writen(), readline() and str_echo(), and a list of rounds or events, one for each turn of a
-- loop, for the clients and servers. What the documents of the calls promise is a named predicate on
-- it, and a theorem holds for every kernel that meets the predicate. Each wrapper with a capital letter
-- (Read(), Writen(), Sendto()) exits on an error, which a model gives as an outcome of its own. All paths
-- below are under src_code/unpv13e.
--
--   - Prelude: lists, options and Boolean tests over the native numbers; Prelude.Int the values of `int`
--     and `ssize_t`; Prelude.Cyclic circular arrays; Prelude.FdSet and Prelude.FdTable sets
--     and tables of descriptors.
--   - Stream: lib/readn.c, lib/writen.c and lib/str_echo.c. The loops run on fuel: as many
--     rounds as bytes and interruptions are enough, since each round moves a byte or is interrupted.
--     Stream.Laws says what a stream is, and Stream.Replay is one that replays a script.
--   - Readline: lib/readline.c. Its static buffer is the record `Buffer`, from call to call.
--   - Nonblock: nonblock/strclinonb.c. The two buffers are records with the four pointers as indices; a
--     turn of the loop is `step`, in its four parts, in order. Nonblock.Window relates a buffer to the
--     bytes that wait in it, and Nonblock.Loss is the way out on which some are lost.
--   - SelectServer: tcpcliserv/tcpservselect01.c. SelectServer.Table is its invariant, SelectServer.Serve
--     the turns, SelectServer.Every the loop without its early exits.
--   - PollServer: tcpcliserv/tcpservpoll01.c, with what the stack holds in the entries of client[] that
--     Poll() has not filled yet. PollServer.Reads is about one turn, PollServer.Turns about all.
--   - Icmpd: icmpd/icmpd.c and icmpd.h, readable_listen.c, readable_conn.c, readable_v4.c and
--     readable_v6.c, with lib/sock_get_port.c and lib/sock_bind_wild.c. Icmpd.Errors reads the ICMP
--     messages, Icmpd.Loop is main(). Its table of clients is kept as that of SelectServer.
--   - Rtt: lib/rtt.c, lib/unprtt.h and rtt/dg_send_recv.c. The floating-point numbers are a parameter with
--     the operations that the code uses; the timer's law is on three comparisons.
--   - Web: nonblock/web.c, web.h, start_connect.c and write_get_cmd.c. The loop that opens connections runs
--     for as many rounds as files are left to open.
--   - Sigio: sigio/dgecho01.c. The main loop moves in four places, between which the handler runs as the
--     signal mask allows; both use the queue of Prelude.Cyclic.
--   - ThreadPool: server/serv08.c, pthread08.c and pthread08.h. The mutex makes each critical section one
--     event; the queue is that of Prelude.Cyclic again.
--   - ChildPool: server/serv05.c, child05.c and child.h. The parent's turns and the end of each child's work
--     are events in any order; the two pipes of a child are numbers of what waits in them.
--   - Gai: libgai, with getaddrinfo() in Gai.Resolve, its checks and searches in Gai.Search, the services in
--     Gai.Ports and getnameinfo() in Gai.Names. Gai.Memory counts the blocks of the allocator, which may
--     fail at any call; Gai.Ports.Blocks and Gai.Resolve.Blocks carry that through the functions.
--   - Connect: lib/tcp_connect.c, tcp_listen.c, udp_client.c, udp_connect.c and udp_server.c, which go through
--     the list of Gai. Connect.Settled says which entry they take.
--   - ThreadReadline: threads/readline.c. The threads share the memory, in which the key gives each an
--     Rline, and go on in any order, one pass of my_read() at a time. Reads has my_read(), Calls and Passes
--     one thread, Shared and Steps one thread among the others, and Runs any order.
--   - WebThreads: threads/web03.c. A step is one of main() or of a thread, in any order, as the mutex allows.
--   - TimeVal: lib/tv_sub.c.
--   - Trace: traceroute. recv_v4() and recv_v6() read a message in Trace; Trace.Loop is traceloop() over
--     either, and Trace.Icmpcode has the names of the codes. The loops over the TTLs and the probes run for
--     the numbers that are left; recv_v4() runs along the rounds of the kernel.
--   - Ping: ping/send_v4.c, send_v6.c, proc_v4.c and proc_v6.c, with the checksum of Cksum.
--   - Cksum: libfree/in_cksum.c, over bytes in either byte order, and a message that carries its checksum.
--
-- Sizes are the constants of lib/unp.h and of the files. A `size_t` is taken modulo 2^64 and the sum of
-- in_cksum() modulo 2^32. The `int` counters of the servers are
-- natural numbers, with their tests against 0 written so that both agree.
-- Not modelled: the set-up of sockets and signals, what is printed, the code of other projects (BIND,
-- GateD, BSD), and the programs that the manifest lists as such.
pub mod Prelude
pub mod Stream
pub mod Readline
pub mod Nonblock
pub mod SelectServer
pub mod PollServer
pub mod Icmpd
pub mod Rtt
pub mod Web
pub mod Sigio
pub mod ThreadPool
pub mod ChildPool
pub mod Gai
pub mod Connect
pub mod ThreadReadline
pub mod WebThreads
pub mod TimeVal
pub mod Trace
pub mod Ping
pub mod Cksum
