-- ===== src/Lib.antt =====
-- Verification of quic_toy, a QUIC server and client over an epoll loop, built on Chromium's QUIC
-- library.
--
-- Parts and files:
--   Server      net/tools/quic/quic_server.{cc,h}: QuicServer. `listen` is Listen, `on_event`
--               OnEvent, `read_and_dispatch_single_packet` ReadAndDispatchSinglePacket.
--               Server/Schedule is the server under any order of socket events, of the calls of
--               DeleteSessionsAlarm, ConnectionIdCleanUpAlarm and the alarms of the sessions'
--               connections, and of time; Server/Looping is its
--               OnEvent as a callback of the event loop.
--   Dispatcher  net/tools/quic/quic_dispatcher.{cc,h}: QuicDispatcher. The server hands it every
--               datagram (Dispatcher/Packets: `process_packet`); it keeps the sessions, the closed
--               sessions, the writers that wait for the socket, and the time-wait list. It is the
--               visitor of its sessions (`on_connection_closed`) and is told when the socket takes
--               packets again (`on_can_write`).
--   TimeWait    net/tools/quic/quic_time_wait_list_manager.{cc,h}: QuicTimeWaitListManager, the ids
--               of closed connections and the answers to packets for them.
--   Session     net/tools/quic/quic_server_session.{cc,h}: QuicServerSession, between a connection
--               of the library and the dispatcher.
--   Writer      net/tools/quic/quic_default_packet_writer.{cc,h}: QuicDefaultPacketWriter, and
--               QuicDispatcher::OnWriteBlocked. A `Link` is the shared writer, the log of its calls
--               of sendmsg, and the list of waiting writers.
--   Socket      net/tools/quic/quic_socket_utils.cc: QuicSocketUtils, datagrams and options.
--   Client      net/tools/quic/quic_client.{cc,h}: QuicClient.
--   EventLoop   net/tools/epoll_server/epoll_server.{cc,h}: EpollServer. Its tables and the operations
--               on them, with EventLoop/Interest; EventLoop/Callbacks is CallReadyListCallbacks,
--               EventLoop/Wait WaitForEventsAndCallHandleEvents, EventLoop/Due
--               CallAndReregisterAlarmEvents, EventLoop/Alarms and EventLoop/Agreed alarms, with
--               QuicEpollAlarm of net/tools/quic/quic_epoll_connection_helper.cc,
--               and EventLoop/Executing WaitForEventsAndExecuteCallbacks, a whole turn of the loop.
--   Stream      net/tools/quic/quic_server_stream.{cc,h}: QuicServerStream.
--   Perf        quic_perf_client.cc, quic_perf_server.cc, tcp_perf_client.cc and tcp_perf_server.cc:
--               options, the loops that send, receive and serve, and exit codes.
--   Net, Base   the values that the parts exchange; lists, maps, integers and tests.
--   Tests       concrete connections, packets and sockets.
--
-- State is passed explicitly. An event of a connection, whose code is the library's, is a list of
-- actions (`Action`), which may depend on all earlier results of the socket; `IsLawful` says what the
-- program relies on. The clock's reading is fixed while the event loop makes one callback, as
-- ApproximateNow is; the calls that read the clock anew take further readings. `none` is a call that
-- does not return normally: a loop that does not end, a dereference of the end of a map or of a null
-- pointer, or front() of an empty vector. A stream that is closed ends the program, since
-- QuicServerStream::OnClose calls exit(0): the dispatcher's `exited` says so, the state is that of the
-- moment of the call, and all loops stop there. The streams that are open when a connection closes
-- are the library's to say, and come with the action.
--
-- Fuel: the loops of TrimTimeWaitListIfNeeded and CleanUpOldConnectionIds get one round more than
-- there are entries, those of OnCanWrite and Shutdown one more than there are writers or sessions,
-- and that of CallReadyListCallbacks one more than there are descriptors; a round takes one away. That
-- of CallAndReregisterAlarmEvents gets one more than its `load`, which counts an alarm that is due
-- twice, and once if it is to be skipped; in a turn of the event loop, whose callbacks may set alarms
-- before, the fuel is an argument. The loop of the performance clients gets one round more than
-- there are bytes to send. The loops that read datagrams recurse on what the socket holds.
--
-- Not modelled: the QUIC library itself (framing, streams, congestion control, crypto); epoll_wait
-- and epoll_ctl, of which the reports are arguments and a refusal ends the program; destructors and
-- memory management, with that of the event loop, which frees entries that may be linked into a
-- list; the event loop's log, event recorder and wake-up pipe; the writes of streams and the client's
-- session, which forward to the library; and the wrap-around of
-- machine integers, except in the control messages, the performance programs, the streams, and the
-- timeout of epoll_wait, where widths are written out; num_packets of the time-wait list is an int
-- that is modelled without a bound.
pub mod Base
pub mod Net
pub mod Socket
pub mod Writer
pub mod TimeWait
pub mod Session
pub mod Dispatcher
pub mod EventLoop
pub mod Perf
pub mod Tests
pub mod Server
pub mod Client
pub mod Stream
