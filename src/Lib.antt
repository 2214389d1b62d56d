-- ===== src/Lib.antt =====
-- A model of the okto-wsd daemon, which joins clients on sockets to radio chips, and what it
-- does.
--
-- The parts, and how they interact. A client's bytes come in through a receiving thread per socket
-- (so_receiver.c), which collects them in a ring buffer (libs/collections/src/rings.c) and cuts them
-- into packets (wsd_packet.c). The packets go over a queue to the dispatcher (gate_in.c), which keeps
-- which socket a transaction id belongs to (libs/collections/src/map2.c, utils.c), sets the addresses
-- of the five pipes of the radio chip (NRF24.c), and hands what is to be sent to the radio transmitter
-- (rf_transmitter.c). The chip is polled for payloads (rf_receiver.c), which are put together to
-- packets in another ring buffer (gate_out.c, exb_packet.c). What is for the clients goes over a queue
-- to the socket transmitter (so_transmitter.c). The queues between the threads are linked lists
-- (libs/collections/src/lbq.c). The program is started and stopped over a file with its pid (core.c).
--
-- The files:
--   Base          numbers, lists, C's words and bit operations, the byte order of the host
--   Elements      what stands on the queues: the structs of include/gate_in.h, rf_transmitter.h,
--                 so_transmitter.h and gate_out.h
--   Heap, Lbq     lbq.c over a heap of nodes, each function between its lock and its unlock
--   Packet        wsd_packet.c and exb_packet.c: Wsd and Exb have the writers and the parsers of the
--                 headers, with the source's bit expressions
--   Ring          rings.c: the record is RingBufferDef, each RINGS_ function has the same name in
--                 snake case; Ring/Mutex has the mutex as a layer of its own, Ring/Search the
--                 search for a preamble that both framings share
--   LinkedList    list.c over the same heap: Cut has what removing does, Find what is found
--   Lbq8, OldMap  lbq8.c and map.c, which the build leaves out
--   Utils         the other functions of utils.c
--   Map2, Itoa    map2.c with its list as the list of the items, in Map2/Nodes over the nodes of
--                 list.c, its iterator, and itoa2 of utils.c
--   SoReceiver    SoReceiver_thread: in_preamble, in_header and in_body are the branches of its loop;
--                 Registration is what it does before and behind the loop
--   Nrf24         NRF24.c over a record of the bus and the pins; Nrf24/Reg has the register names
--                 and Nrf24/Init what the manual says of the registers
--   GateIn        GateIn_thread: on_transmit and on_matrix are its two actions
--   RfTransmitter RfTransmitter_thread: round is one turn of its loop, run the loop; Straight is the
--                 same without the five queues
--   SoTransmitter SoTransmitter_thread: on_element is one turn of its loop
--   GateOut       GateOut_thread: in_preamble, in_header and in_body are the branches of its loop
--   RfReceiver    RfReceiver_thread: poll is one turn of its loop, at a reading of the clock
--   Daemon        core.c: the commands over the pid file; PidFile has one command, Session many
--   System        core.c, startDaemon: the receiving threads, the dispatcher, the assembler of radio
--                 packets and the socket transmitter joined by their queues, one event after another; Air
--                 goes on to the chip, Short and Any take any bytes, Mixed has
--                 clients whose bytes come mixed
--   Rf, Spi       rf.c, the set-up of the radio, and RF_transmit, which nothing in the build calls;
--                 spi.c, the bus that it opens
--   Logger, Delay logger.c and time.c
--   SocketHandler socket_handler.c and data_processor.c, an earlier form of the threads that the build
--                 leaves out
--   TreeSet       treeset.c, a set that the daemon includes and does not use
-- In each, the module of the component has the definitions and its child modules the proofs; those
-- named Tests run them at concrete inputs.
--
-- State is passed explicitly. A thread's loop is a function of what it takes from its queue or its
-- socket, in order; what it puts on a queue, or writes to a socket, is a list. A field that malloc
-- leaves unset is an argument. Machine words are natural numbers reduced where the source's types
-- do it.
--
-- Parameters: Device is wiringPi and spidev (SPI_transmit, digitalRead, digitalWrite) and what
-- malloc leaves in a block. Sprintf is the C library's printing of an int: short, and different
-- for different numbers. Atoi reads such a text back, up to a byte that is no digit. HexPrint
-- prints a byte in three characters. Registers and Settings are what the chip's manual says of its
-- registers. Alloc is malloc: an address that is not in use. Host is what the operating system
-- answers to a command, and Answers what it answers when the bus is opened. Printf prints a text
-- with no % in it as it is. TimeMacros are the C library's timeradd and timercmp on what
-- gettimeofday gives.
--
-- Faults. Reading behind a block and writing behind one that malloc gave for a packet are faults:
-- the system has no next state then. An element keeps all that was written to its block, so that
-- one with more bytes than its size was written behind its block (requests_fit, packets_fit of
-- Elements).
--
-- Bounds. RINGS_readAll runs on as much fuel as the buffer has positions. The wait for the chip's
-- signal in NRF24_Send has no bound of its own; it runs on fuel, and has no result when the fuel
-- runs out. The loop over the sockets, and the loops of the map over its nodes, run on fuel of more
-- steps than there are items. TreeSet_remove runs on fuel to show that it never ends.
--
-- Not modelled: setting up the server's socket (core.c); setd.c, which does not compile; gpio.c,
-- input and output without decisions that nothing in the build calls; and libs/oscl, wrappers of
-- pthreads, malloc and the clock. The test of NRF24_init_check is commented out: it returns 0 and
-- is left out. Delays and the log have no effect on the values of the other parts. The threads
-- take turns: each empties its queue before the next bytes come, and none is interrupted while it
-- does.
pub mod Base
pub mod Elements
pub mod Heap
pub mod LinkedList
pub mod Lbq
pub mod Itoa
pub mod Packet
pub mod Ring
pub mod Map2
pub mod Nrf24
pub mod SoReceiver
pub mod GateIn
pub mod RfTransmitter
pub mod SoTransmitter
pub mod GateOut
pub mod RfReceiver
pub mod Daemon
pub mod System
pub mod TreeSet
pub mod Spi
pub mod Logger
pub mod Delay
pub mod SocketHandler
pub mod Rf
pub mod Utils
pub mod OldMap
pub mod Lbq8
