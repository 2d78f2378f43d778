-- ===== src/Lib.antt =====
-- A verification library for CommunicateCore, three processes that exchange frames over TCP and Unix
-- sockets: a TCP server for controllers (process1), a collector and a processor of sensor data
-- (process2), and a control process that passes messages through pipes (process3). They share one
-- frame format, one table of commands, and the commands' handlers.
--
-- The parts, and the files of the repository that they model:
--   Common, Memory    C's integers, and buffers with loads, stores and copies; no file of its own
--   Command           cmd-handler.h (the ids), command.h (the packed structs, as sizes and offsets),
--                     and of cmd-handler.c getSendCmdSize, getRecvCmdSize and getCmdName
--   Frame             frame-format.h and frame-format.c. Frame.Crc: calculatePacketCrc and
--                     checkPacketCrc. Frame.Build: makeSendPacket and makeRecvPacket, set against
--                     the check in Frame.RoundTrip and Frame.Request. Frame.Check:
--                     getTotalRecvSize, checkPacketFormat and printPacketFormatError, the last
--                     set against the check in Frame.Report.
--                     Frame.Spec says what a frame is, with no reference to this code.
--   Handler           command.c (each handler a function on two pointers), logger.c, and of
--                     cmd-handler.c the table and dispatchCommand. Handler.Effect says what each
--                     command writes, and Handler.Stores is a handler as the list of its
--                     assignments.
--   Tcp               process1.h (Tcp.State), recv-thread.c (Tcp.Receive), send-thread.c (Tcp.Send),
--                     the two threads of a client together (Tcp.Session) and the whole sending
--                     thread (Tcp.Session.Sending), main of process1.c (Tcp.Accept), and main with
--                     the threads of all slots (Tcp.Server)
--   Sensor            process2.h (Sensor.Data), sensor-collector.c (Sensor.Collector) and
--                     sensor-processing.c (Sensor.Processing). Sensor.Readings and
--                     Sensor.Independence are about the members of the shared SENSOR_DATA,
--                     Sensor.Pipeline about the way of a reading. Sensor.System is the two threads
--                     with a message or an iteration as one step, and Sensor.Locks the same with
--                     the mutex and the condition as values and each access of the shared data a
--                     step of its own. Sensor.Latest is the abstract view of the shared data, the
--                     latest reading of each sensor, and Sensor.Latest.History what the threads are
--                     for: readings that arrive, and sums of the latest ones.
--                     Sensor.Server is the older server of process2.c, which has the loop over
--                     descriptors in common with the collector (Sensor.Loop). The whole threads, with
--                     what stands before their loops, are Sensor.Collector.Thread,
--                     Sensor.Processing.Thread and Sensor.Server.Thread.
--   Control           process3.h, recv-command-data.c, recv-processing-data.c and process3.c
--   Delivery          the way of the readings from the sensors to the control process, through the
--                     threads of Sensor and Control
--   Gtest             what the programs under gtest set up, send and expect:
--                     gtest-sensor-integration.cc (Gtest.Sensor, its loop over the results beside
--                     the threads that make them Gtest.Sensor.Receiving, with Gtest.Sensor.Results
--                     and Gtest.Sensor.Merged on it, and its environment
--                     Gtest.Sensor.Integration),
--                     gtest-tcp-recv-send.cc (Gtest.Tcp, its fixture Gtest.Tcp.Fixture) and
--                     gtest-controll-pipeline.cc (Gtest.Pipeline, its pipes and its last lines
--                     Gtest.Pipeline.Pipes and Gtest.Pipeline.Completion)
--
-- The receiving thread of a client checks a frame, dispatches its command on the payload, builds the
-- answer around what the handler wrote, and leaves it in the client's mailbox, from where the sending
-- thread sends it. The collector dispatches each sensor's frame into the shared SENSOR_DATA; the
-- processor sums it into a frame for the control process.
--
-- How code corresponds to definitions:
--   - A definition has the name of its function, in snake case, and the order of its reads, writes and
--     calls. A thread is a function for one iteration of its loop, for each result of the calls that
--     it waits in; the results of calls into the tcp-sock and uds libraries, which are submodules, and
--     of select, accept, read and the waits are arguments.
--   - An int, short or char is the number of its bits; comparisons and subtraction on int are written
--     out on these. A double is its 64 bits, and the addition of doubles is a parameter of
--     Sensor.Processing, of which it is used only that it gives 64 bits.
--   - A buffer is a list of bytes, little-endian, a pointer a buffer with an offset. A load, store or
--     copy that leaves its buffer is none, and so is all that goes on from there.
--   - What a thread prints to a terminal is not modelled, except for the logger's lines and the
--     report of printPacketFormatError. Sends, signals, closes and log lines are lists of effects.
--   - The threads of process1, the two of process2 and the three of process3 run in the order of a
--     step relation, with every order in it. In Sensor.Locks the lock of process2 is a value, and a
--     thread may stop anywhere between its lock and its unlock; elsewhere what the code does under a
--     lock is one step, and so is sendThread's copy of the mailbox with the send behind its unlock.
--     malloc may fail in sensorProcessingThread, and succeeds elsewhere.
--
-- Fuel: the loop over descriptors of the collector and of the older server, whose bound an accepted
-- socket can raise, takes a number of steps; for descriptors up to m, m + 2 are enough, which
-- Sensor.Collector.Rounds shows, and Sensor.Server.Thread for the older one with the headers of this
-- repository. The whole threads take as many for each of their iterations.
-- All other loops are over a list, the table or a count.
--
-- Not modelled: the creation of sockets, and of threads but those of process1 (the first lines of main
-- and of each thread), the two libraries, the Makefile, the socket paths, and gtest with the mains of
-- its programs and their sleeps. The functions that process2.c takes from headers that are not in the
-- repository are a parameter of Sensor.Server. The undefined wait of sendThread on a mutex that it does
-- not hold is taken as a wait with the mutex, so the mailbox's lock is not a value.
mod Common
mod Memory
pub mod Command
pub mod Frame
pub mod Handler
pub mod Tcp
pub mod Sensor
pub mod Control
pub mod Delivery
pub mod Gtest
