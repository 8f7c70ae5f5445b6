-- ===== src/Lib.antt =====
-- NetworkProj: a reliable byte stream over a lossy datagram network, in the version of Proj1.
--
-- A file transfer client and server (Proj1/ftpc.c, Proj1/ftps.c) call a library (Proj1/tcpudp.c)
-- that hands each call as datagrams to a daemon (Proj1/tcpd.c) on the same host. The two daemons
-- exchange packages and acknowledgements through an emulator of a bad network (the "troll"): each
-- package carries a checksum (Proj1/crc32.c), waits in a window until it is acknowledged, and is
-- sent again when the timer process (Proj1/timer.c) reports that its time is over.
--
-- The files and what they model:
--   Net                  socket addresses, and processes that may end by `exit`.
--   Crc32                Proj1/crc32.c: `crc32`, its table and its loop.
--   Timer                Proj1/timer.c: `InsertRequest` (insert_request), `CancelRequest`
--                        (cancel_request), `UpdateTimerList` (update_timer_list), `SendCallbacks`
--                        (send_callbacks), a round of the loop of `main` (round) and how long it
--                        sleeps (sleep_time). Timer/Request is Proj1/TimerRequest.h and
--                        TimerRequest.c. Timer/Deadlines is the specification: the list of alarms
--                        with the times at which they are due. Timer/Driver is Proj1/driver.c.
--   Tcpd/Message         Proj1/Header.h: packages, acknowledgements and their bytes.
--   Tcpd/Rto             Proj1/tcpd.c: the estimate of the round trip.
--   Tcpd/State           the daemon's tables, and what it hands to `sendto`.
--   Tcpd/Front           tcpd_SOCKET, tcpd_BIND, tcpd_ACCEPT, tcpd_RECV, tcpd_CONNECT, tcpd_SEND.
--   Tcpd/Receiver        RecvData (recv_data), SolveAcceptCallback, SolveRecvCallback.
--   Tcpd/Sender          RecvAck (recv_ack), RecvTimer (recv_timer), SolveSendCallback.
--   Tcpd/Loop            the loop of `main`: one round (round), and several (run).
--   Tcpd/Stream          what a daemon promises to the processes that receive from a session, and the
--                        tables of sockets by session.
--   Tcpd/Written         what a daemon makes of the bytes that are written to a session.
--   Tcpd/Delivery        two daemons with a network between them, from SEND to RECV.
--   Tcpudp               Proj1/tcpudp.c: the datagrams of each call (socket_request and so on), the
--                        call with its answer (socket_call), and how tcpd reads them (read_call).
--   Ftp                  Proj1/ftpc.c (send_file, send_loop) and Proj1/ftps.c (recv_file, recv_loop,
--                        recv_files), which is a function of what RECV does. Ftp/Service is RECV as
--                        tcpd_RECV and SolveRecvCallback serve it (daemon_recv).
--   Turner               Turner/timer.c, the first version of the timer process: `addNode` (add_node),
--                        `deleteNode` (delete_node), `updateNodes` (update_nodes), the loop (round).
--                        Turner/Due is the specification, the nodes with the times at which they
--                        are due.
--   Lab3                 Lab3/tcpd.c, the first daemon, without retransmission: tcpd_SOCKET, tcpd_BIND,
--                        tcpd_RECV, tcpd_CONNECT, tcpd_SEND; Lab3/Loop is the loop of its `main`.
--   Lab1                 Lab1/count.c, which counts a string in a file: `strstr` and the loop of `main`
--                        (search_loop), `main` (count_matches).
--   Checksum             Proj1/checksum.c: checksum32 and deprecated_crc32, which no program calls.
--
-- How state and failures are modelled: a handler takes the global variables as a record and returns
-- the new record, or the code with which the process ends. What the system calls read and return is
-- an argument; `sends` says which calls of `sendto` succeed. Everything that is sent is kept in a
-- list. A GHashTable is a list of its entries. Numbers are natural numbers with the wrap-around of
-- `uint32_t` written out; `MinSeq + 64` cannot overflow since MinSeq is at most 100000000, and the
-- sum of RecvBufferSize and `len` is taken without the wrap-around of `size_t`, which only a package
-- with a forged length near 2 ^ 64 could reach: SEND makes none.
-- `double` seconds are whole numbers of one unit in the timer processes, and exact fractions over a
-- power of 8 in the estimate: rounding is not modelled.
--
-- Fuel: the `while` of SolveRecvCallback runs on the total length of the packages that wait plus
-- their number and one, since every round drops a package or makes the first one shorter. The loops
-- of the file transfer run on as many rounds as the file has bytes, since every round moves one or
-- more; the client's does not end on a file that is shorter than announced. Lab1's search runs on
-- the length of the text, since every match is further on. The other loops are structural recursion.
--
-- Not modelled: printing and logging (PrintTcpdStatus, DisplayTimerList), the setup of sockets and
-- addresses at the start of the programs (InitTcpUdp too), failures of reading and writing files,
-- `usleep`, memory management but where a freed node is read, the troll (a third-party program),
-- and what else led to Proj1 (Lab2, the rest of Lab1, Lab3 and Turner). Proj1/final is a copy of
-- the files of Proj1.
pub mod Prelude
pub mod Net
pub mod Crc32
pub mod Timer
pub mod Tcpd
pub mod Ftp
pub mod Tcpudp
pub mod Checksum
pub mod Turner
pub mod Lab3
pub mod Lab1
