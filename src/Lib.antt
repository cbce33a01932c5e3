-- ===== src/Lib.antt =====
-- Verification of the GRSPW SpaceWire device model for the QEMU LEON3 machine (grspw/ of this
-- repository).
--
-- The program simulates the SpaceWire cores of a LEON3: the guest reads and writes their
-- registers through the APB bus, a core moves packets between the guest's memory and two POSIX
-- message queues, and an external process at the other end of the queues plays the connected
-- device.
--
-- - Base: shared names, Boolean tests, lists, the bits of numbers (Base/Bits) and words within
--   a mask (Base/Within).
-- - Host: the outcomes of C code (a return, the exit of CHECK_FATAL, an access out of bounds),
--   the process state outside the registers, and the platform below. The platform, that is
--   mq_send, mq_receive and QEMU's address space, is a parameter (the record Platform);
--   Host/Sample is a platform that runs. Host/Buffer has memcpy on byte arrays, Host/Bind takes
--   chains of statements apart, Host/Always is about code that returns from every state, and
--   Host/Memory about the sample memory.
-- - Util: grspw/grlib_utilgrspw.c. Util/Mask has checkbit, setbit, clearbit and deposit,
--   Util/Word the unsigned integers and their bytes on a little-endian host.
-- - Mq: grspw/grlib_mqgrspw.c. store_tx, memcpy_tx and mq_send are the statements of
--   grlib_mqgrspw_send_packet, and load_rx and memcpy_rx those of grlib_mqgrspw_receive_packet.
--   Mq/Frame and Mq/Send are about sending, Mq/Receive, Mq/RoundTrip and Mq/Header about
--   receiving.
-- - Reg: grspw/grlib_reggrspw.c and .h. Registers is t_grspw_reg, Reg/Masks has the constants
--   of the header, and write_ctr is composed of store_ctr, tick_in, link_start and link_disable
--   in the order of the C function. Reg/Ctr, Reg/Status and Reg/Link are about the writes,
--   Reg/Access about reading back and the reset, Reg/Valid about the invariant.
-- - Util/Swap and Util/Ram: endianness_swap, and write_leon3_ram and read_leon3_ram over the
--   platform's address space. What the code relies on there is a hypothesis: a read gives as
--   many bytes as were asked for (IsSized), and the bytes that were written (IsMemory).
-- - Com: grspw/grlib_comgrspw.c and .h. Device is t_grsw_device, with the descriptor arrays as
--   bytes, and Com/Descriptor has the constants. rxenable is grlib_comgrspw_rxenable, whose
--   nested branches are accept_packet, receive_by_descriptor, store_packet and refuse_packet.
--   grlib_comgrspw_txenable is cut at grlib_coregrspw_txwaitack into begin_txenable and
--   finish_txenable; what the other threads do to the device during the wait is an argument of
--   txenable. Com/Valid has the invariant, Com/Receive, Com/Filter, Com/Store, Com/Deliver and
--   Com/Stale are about receiving, Com/Used about the bits of used descriptors and of the
--   registers after a packet, Com/Begin, Com/Emit and Com/Transmit about sending, Com/Table
--   about the table of transmit descriptors in the guest's memory, Com/Sends and Com/Round
--   about one call of grlib_comgrspw_txenable in a loop, Com/Peer about what the external
--   device receives, Com/Identity about the number of a device, Com/Time about time codes;
--   Com/Sample has a device for the runs.
-- - Core: grspw/grlib_coregrspw.c. rxthread_round is one round of the loop of
--   grlib_coregrspw_rxthread, dispatch its switch. Core/Init has grlib_coregrspw_init with the
--   queues of Mq/Lifecycle. Host/Ensures is about code that may end in an exit or a fault, and
--   Core/Valid uses it for a round. Core/Queue is about what handling a message leaves of the
--   queue. Core/TxThread is a round of grlib_coregrspw_txthread, which grlib_coregrspw_init
--   does not start; Core/TxThread/Ends is about its loops, Core/TxThread/Count about how many
--   descriptors are enabled. Host/Keeps is about code that leaves a part of the process state
--   as it was.
-- - Mq/Bounds is about what a received packet can be, Mq/Plain about receiving a message
--   without a header, Mq/Malformed about messages whose length is not what they claim.
--   Mq/Lifecycle has grlib_mqgrspw_init, _connect, _devdestroy and _spwdestroy over the
--   system's calls, a parameter (the record Posix); Mq/Lifecycle/Laws states what POSIX
--   documents of them (IsPosix, over the queues and descriptors of a View), and
--   Mq/Lifecycle/Sample is a system that runs and satisfies it.
-- - Apb: grspw/grlib_apbgrspw.c. core_id and reg_offset are its macros, apb_read its read
--   handler (with locktxsem and unlocktxsem of Core, given whether the mutex is owned, and a
--   result of its own for a read that blocks), and its write handler is cut at the wait of
--   grlib_comgrspw_txenable into begin_write and finish_write. init_cores is the loop of
--   grlib_apbgrspw_init. Apb/Decode is about addresses, Apb/Access about what the guest reads
--   and writes, Apb/Valid about the invariant. Apb/Qemu has the rest of the file: the three
--   handlers of a character device, grlib_apbgrspw_init, the class and the type. The calls of
--   QEMU and g_malloc0 are a parameter (the record Qemu); Apb/Qemu/Laws states what their
--   documentation says (IsQemu, over what can be seen of QEMU), Apb/Qemu/Registration is about
--   what the device registers, and Apb/Qemu/Sample is a QEMU that runs and satisfies the laws.
-- - System: the threads together. A System is the four cores, the variables of the receive
--   thread, the place of the guest's thread (Bus), the owner of txthread_mutex and the process
--   state. Step is one step of the guest's thread, of the receive thread or of the external
--   device, and Reach their sequences. A step is atomic but for the wait of a write, which is
--   three steps: the wait, the return and what follows. pthread_cond_wait gives the mutex up,
--   may return with no signal, and owns the mutex when it returns; where the thread does not
--   own it before, which POSIX leaves undefined, it waits all the same. The guest's thread is
--   the only one that takes the mutex, so a lock of an owned mutex is by its owner: POSIX
--   leaves that undefined for the mutex as it is made here, on Linux it never returns, and here
--   it blocks. A signal wakes a thread that waits, and is forgotten where none does. A step
--   that ends in an exit or in an access out of bounds leaves no state. System/Reachable has
--   the invariant, System/Identity is about the numbers of the cores, System/Deliver is about a
--   packet from the queue to the guest's memory, System/Progress about a queue of messages,
--   System/Signal about the signals that several messages give, System/Transmits about a packet
--   from the guest's write to the acknowledgement, System/Acknowledge about the
--   acknowledgement, System/Lock about the mutex, System/Reads about what the guest can read in
--   every state.
-- - Log: grspw/grlib_loggrspw.c. The files are texts, each a list of characters, or a null
--   pointer; fprintf appends to one, and numeral is what its %d and %x print. print_readreg and
--   print_writereg are grlib_loggrspw_trace_readreg and grlib_loggrspw_trace_writereg;
--   print_log prints the log that the process state keeps. Log/Bitfield and Log/Numeral are
--   about what a line shows, Log/Prints, Log/Files and Log/Unopened about the files.
-- - Testsuites: grspw/testsuites/grlib_grspwtest0.c, an older copy of the APB glue, and where
--   it agrees with Apb. Testsuites/Qemu is its registration, which attaches no handlers, and
--   Testsuites/Registration is about it.
--
-- A C function is a function on the process state that returns an Outcome. Words are natural
-- numbers, with the wrap-around of the source written out. Array sizes are those of the lists
-- in the state, so that the theorems hold for the program's buffers of 16 MB and run on small
-- ones. Two definitions take fuel: numeral, which prints a number, takes how many digits it has
-- at most: 10 in base 10 and 8 in base 16 are enough for 32 bits; and send_all, the loop of the
-- transmit thread, takes how many rounds it goes at most: 65 are enough, one for each of the 64
-- descriptors and one to stop.
--
-- Not modelled: the round of the transmit thread together with the other threads (nothing
-- starts it, and what they do during its wait is an argument), and data races within one step.
pub mod Base
pub mod Host
pub mod Util
pub mod Mq
pub mod Reg
pub mod Com
pub mod Core
pub mod Apb
pub mod System
pub mod Log
pub mod Testsuites
