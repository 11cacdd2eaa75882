-- ===== src/Lib.antt =====
-- cfe_sntp: an SNTP server as a cFS app, with a standalone server and client.
--
-- The parts of the program, and the file that models each:
--   App.antt            the state SNTP_Data_t (fsw/src/sntp.h), event, message and performance ids
--   App/Command.antt    SNTP_ProcessCommandPacket and the handlers below it (fsw/src/sntp.c)
--   App/Server.antt     the app as an abstract server: what is seen of it, its steps and its runs
--   App/Init.antt       SNTP_Init (fsw/src/sntp.c)
--   App/Main.antt       SNTP_Main (fsw/src/sntp.c): start, poll, read, the branches, loop and exit
--   Socket.antt         initUDPSocket (fsw/src/sntp.c)
--   Request.antt        process_sntp_request (fsw/src/sntp.c), shared with tools/server_test.c
--   App/Table.antt      the table (fsw/platform_inc/sntp_table.h) and its constants (fsw/src/sntp.h)
--   Log.antt            the logging macros of fsw/src/core_sntp_config.h
--   Packet.antt         encodeTime (fsw/src/sntp_utils.h), Sntp_DeserializeRequest
--                       (fsw/src/sntp_utils.c), on the bytes of a packet
--   Clock.antt          getCurrentSntpTime in both builds (fsw/src/sntp_utils.c), and the macros of
--                       fsw/src/core_sntp_config.h
--   Status.antt         sntp_util_status_to_str (fsw/src/sntp_utils.c)
--   Telemetry.antt      the command codes and the telemetry packet (fsw/src/sntp_msg.h)
--   Tools.antt          what the command lines of the two tools share
--   Tools/Server.antt   tools/server_test.c
--   Tools/Client.antt   tools/client_test.c
--   App/Version.antt    the version macros (fsw/src/sntp_version.h)
--   UnitTest.antt       the event hook of unit-test/coveragetest/coveragetest_sample_app.c; in
--                       UnitTest/Cases.antt and UnitTest/Declared.antt its test cases, and in
--                       UnitTest/Suite.antt the list of them
--   World.antt          state, receive buffer and history of calls, and the monad of programs
--   Platform.antt       the parameters: host, coreSNTP, cFE, and the answers of the environment
--   Base.antt           shared names, byte strings as objects of memory, C's signed values
-- The modules below each part hold its theorems. App/Tally.antt, App/Replies.antt, App/Trace.antt,
-- App/Events.antt and App/Rounds.antt are the abstract views of a history that these use;
-- App/Init/Keeps.antt and App/Main/Keeps.antt carry an invariant through the initialisation and
-- through a run. App/Phases.antt is the order of the calls as a machine, Socket/Life.antt the life of
-- a socket as a machine,
-- App/Replies/Times.antt the times that were sent and read, App/Responses.antt the responses to the
-- messages that were polled, and App/Pipe.antt the life of the pipe that they come from.
-- Request/Wire.antt writes a reply out as a byte string, Request/Order.antt is about the order of
-- its two times, Tools/Client/Session.antt about the network calls of a client's run, and
-- Tools/Exchange.antt puts a client and a server together, with the codec in
-- Tools/Exchange/Codec.antt and a whole run of the app in Tools/Exchange/Run.antt. Tests.antt runs
-- the definitions.
--
-- How the parts interact. The loop of SNTP_Main tests CFE_ES_RunLoop, polls the command pipe, hands a
-- message to the command handlers, then reads a datagram into netBuf and, if it has the length of a
-- packet, has it answered. Commands and requests meet in the counters of SNTP_Data only.
--
-- State. A program is a function of a World: the state of its own (SNTP_Data, or the globals of a
-- tool), the receive buffer netBuf, and the list of calls made so far, the newest first. What a call
-- returns is a function of that list, so that an environment may answer in any way; memory that was
-- never set is such an answer too. Counters wrap at 8 and 16 bits, words at 32, as in the source; a
-- long has 64 bits. A packet is its bytes: members are read and written at the offsets of an abstract
-- layout, in the host's byte order.
--
-- The unit tests. A test case is a function from the platform that it sets up, the messages that it
-- makes and a world to the list of its assertions' verdicts. Events carry their id, format and
-- arguments, and the stub of CFE_EVS_SendEvent, a parameter, hands id and format to the hook.
-- The calls that take the address of a message carry it, as SNTP_Data.HkTlm or another place, and a
-- stub that writes it to one variable keeps the first.
--
-- Parameters and what is asked of them (Platform/Laws.antt): htonl and ntohl convert between the
-- host's order and the network's; the members of SntpPacket_t lie apart within its size, two of them
-- bytes and the others words; members of C's unsigned types are in range; CFE_SB_TimeStampMsg leaves a
-- payload alone; CFE_ES_RunLoop refuses a status other than APP_RUN. What a read fills is asked in
-- App/Replies/Right.antt, the packet of RFC 4330 in Request/Wire.antt, a steady clock in
-- Request/Order.antt, and the client's codec in Tools/Exchange/Codec.antt. Platform/Layouts.antt and
-- Platform/Example.antt give platforms of which all of this holds.
--
-- Fuel. SNTP_Main's loop runs on fuel for the tests of CFE_ES_RunLoop, and says whether a test ended
-- it. Fuel for one more test than the run loop allows is enough, and more changes nothing
-- (App/Main/Fuel.antt). The server tool's endless loop is modelled for any number of its rounds.
--
-- Not modelled: coreSNTP (a git submodule) and cFE, which are parameters, as are SNTP_Process,
-- SNTP_TblValidationFunc and SNTP_GetCrc, which fsw/src/sntp.h declares and no file defines. Of the
-- unit tests: the framework, UtTest_Add and the stubs, which are external.
pub mod Base
pub mod Telemetry
pub mod Platform
pub mod World
pub mod Packet
pub mod Log
pub mod Clock
pub mod Status
pub mod Request
pub mod Socket
pub mod Tools
pub mod App
pub mod UnitTest
mod Tests
