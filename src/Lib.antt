-- ===== src/Lib.antt =====
-- The server of FIX messages, WarheadFix: its buffers, its sockets, its sessions, and the threads that
-- serve them.
--
-- The program accepts connections (src/shared/Network/SocketMgr.h), gives each one to the thread with
-- the fewest (src/shared/Network/NetworkThread.h), and updates its sockets there. A socket
-- (src/shared/Network/Socket.h) reads into a MessageBuffer and writes a queue of MessageBuffers. Each
-- socket is a session (src/app/Server/AuthSession.cpp), which hands the bytes that came to
-- src/shared/FixMessage/FixMessage.cpp and answers by a ByteBuffer (src/shared/Packets/ByteBuffer.h).
--
-- Which file is about which part:
--   Base             lists of bytes for vectors, memcpy on them, bits, tests
--   Timer            src/common/Utilities/Timer.h and Timer.cpp: differences of clock readings
--                    (GetMSTimeDiff, getMSTimeDiff) in Clock, IntervalTimer, TimeTracker
--                    and PeriodicTimer in Timers, TimeBreakdown in Calendar, GetSeconds to
--                    GetYear and GetLocalHourTimestamp in LocalTime, ToTimeString in Text
--                    and Numeric, with the numbers and the words that it writes in Units and Words
--   MessageBuffer    src/common/Utilities/MessageBuffer.h, an operation by its name in lower case
--   ByteConverter    src/common/Utilities/ByteConverter.h
--   ByteBuffer       src/shared/Packets/ByteBuffer.h and ByteBuffer.cpp: the positions, append and put;
--                    Numbers for append<T>, put<T>, read<T> and the operators, Strings for texts, Guid
--                    for appendPackGUID and readPackGUID, PackedTime for the packed times
--   Socket           src/shared/Network/Socket.h: HandleQueue, Update, CloseSocket, AsyncRead and the
--                    callbacks. Stream, Writing, Closing, Draining, Reading and History are about
--                    them
--   FixMessage       src/shared/FixMessage/FixMessage.cpp: IsReadLogonMessage,
--                    IsReadNewOrderSingleMessage, IsValidCommand, GetCommand; PrepareTestMessage in
--                    TestMessage. Lines and Readings are about the first two
--   Session          src/app/Server/AuthSession.cpp: ReadHandler in the steps read_handler,
--                    handle_command and dispatch, SendPacket, and the two handlers. Reaction holds the
--                    table of what ReadHandler means to do
--   NetworkThread    src/shared/Network/NetworkThread.h over any type of sockets; Sessions fills in
--                    AuthSession
--   Threading        src/common/Threading: LockedQueue.h, PCQueue.h as ProducerConsumerQueue, and of
--                    MPSCQueue.h the queue that is not intrusive as MpscQueue, the other one as
--                    IntrusiveQueue, with Dequeue in the steps of step
--   Strings          src/common/Utilities: Tokenize.cpp, Trim and TrimRightInPlace of StringFormat.cpp,
--                    StringEqualI of Util.cpp in Compare, StringConvert.h in Convert
--   Config           src/common/Configuration/Config.cpp: ParseFile and AddKey, the two files of
--                    LoadAppConfigs, GetOption; Lines and Layers are about them
--   Log              src/common/Logging/Log.cpp: GetLoggerByType and ShouldLog; LoadFromConfig and what it
--                    calls in Loading
--   SocketMgr        src/shared/Network/SocketMgr.h and src/app/Server/AuthSocketMgr.h: StartNetwork, OnSocketOpen,
--                    SelectThreadWithMinConnections, GetSocketForAccept
--   Main             src/app/Main.cpp: the command line in config_argument, and main up to the event loop
--   AsyncAcceptor    src/shared/Network/AsyncAcceptor.h: AsyncAcceptWithCallback in the steps
--                    async_accept_with_callback and accept_handler, with the factory and the callback
--                    that SocketMgr gives it
--
-- How the code is modelled:
--   - A vector of bytes is a list of numbers. size_t is 64 bits wide, and its sums and differences are
--     taken modulo 2 ^ 64 where the code takes them. An access outside a vector is none, or the error
--     `undefined`; the theorems say where it cannot happen.
--   - A method of ByteBuffer takes the buffer and returns a value or an error, with the buffer. A failed
--     assertion is an error too. An exception that leaves ReadHandler ends the process.
--   - The calls that a socket makes of Boost.Asio are a list of effects. What write_some reports is a
--     function of the number of bytes that it is offered, a new one for each call in a loop.
--   - Loops run on fuel, and the theorems give it: the loop of Update has the length of the queue and one
--     more round, ReadCString one round more than the bytes left, appendPackGUID nine rounds, the loop of
--     Tokenize a round for each byte and one more, GetLoggerByType two calls more than the type has bytes,
--     Dequeue of IntrusiveQueue six steps, the destructors of the two queues of MPSCQueue.h a round for
--     each item and one more.
--   - A number is written with the low byte first: a little-endian machine, or EndianConvert. The bytes of
--     a float or a double are those of its pattern.
--   - The counter of a thread is the 32 bits of an int32, and the count of a duration the 64 of an int64.
--   - The steps of the threads that share a queue interleave as the constructors of a relation `Run`.
--   - The options and the sinks, unordered maps in the code, are lists in some order.
-- Parameters stand for the code outside: hffix (the record `Reader` of FixMessage, and what its writer
-- makes of a list of calls), the test of UTF-8 of utf8cpp, localtime, mktime, the clock, how fmt
-- writes a number, the files of the configuration, and spdlog (the record `Spdlog` of Log).
--
-- Not modelled: StopNetwork, which waits for the threads and which main does not come to, and the event
-- loop of Boost.Asio; what is logged, but for the lines of FixMessage, and what spdlog does with it;
-- AsyncAccept, which nothing calls; the branch of Socket.h for I/O completion ports; crash reports; floating point arithmetic (appendPackXYZ) and floating point numbers
-- in texts; ToString of signed integers; the printing of times by put_time; the capacity of vectors in
-- ByteBuffer.
pub mod Base
pub mod Timer
pub mod MessageBuffer
pub mod ByteConverter
pub mod ByteBuffer
pub mod Socket
pub mod FixMessage
pub mod Session
pub mod NetworkThread
pub mod SocketMgr
pub mod AsyncAcceptor
pub mod Threading
pub mod Strings
pub mod Config
pub mod Log
pub mod Main
