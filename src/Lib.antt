-- ===== src/Lib.antt =====
-- modbus_c: a Modbus RTU slave for microcontrollers and Linux, and a master.
--
-- A serial line carries frames: an address, a function code, data and a CRC, told apart by silences.
-- The slave (rtu.c) is a state machine that the platform drives. Interrupts for received bytes,
-- broken bytes, expired timers and finished transmissions update its state and mark it; the main loop
-- runs `modbus_rtu_event`, which acts on the mark: it restarts the machine, checks a received frame,
-- gives the request to a callback and sends the callback's reply. The memory handler (rtu_memory.c) is
-- such a callback behind a small adapter: it reads and writes a window of bytes. The master
-- (master.c) builds requests and checks replies. All use the CRC of crc.h, which each platform
-- implements in its own way.
--
-- The files:
--   Prelude     runs of C code with their faults, buffers, bytes, bits, lists
--   Wire        rtu.h: constants, MAKE_WORD, the two-byte fields and their conversions
--   Crc         linux/crc.c: the tables and the bit-by-bit algorithm; Crc/Mcu has atmega328p/crc.c,
--               stm8s003f3/crc.c and stm32f103c8/crc.c; Crc/Frame is a message with its CRC
--   Memory      rtu_memory.c: read_n16, write_16, write_n16, read_n8, write_n8, rtu_memory_pdu_cb
--   Adapter     rtu_memory_impl_clear, rtu_memory_impl_init and rtu_memory_impl_pdu_cb, of linux/rtu_impl.c and
--               atmega328p/rtu_memory_impl.c
--   Rtu         rtu.c: the callbacks, adu_check, adu_process, modbus_rtu_init, modbus_rtu_event;
--               Rtu/Timer has the timer functions of linux/rtu_impl.c, Rtu/Schedule the events, Rtu/Answer
--               a frame's time from its first byte to the answer, Rtu/Faults where a run faults,
--               Rtu/Diagram the state diagram of diagrams/state_machine.puml
--   Master      master.c: the make_request_* functions; Master/Replies has the parse_reply_* ones
--   Timing      calc_1t5_us, calc_3t5_us, calc_tmin_ms and calc_tmax_ms of linux/rtu_impl.c
--   MasterImpl  linux/master_impl.c: the transactions of a master over a line
--   RtuImpl     linux/rtu_impl.c: the timer, send_impl, recv_impl, timeout_impl, modbus_rtu_run
--   Mcu         atmega328p/rtu_impl.c, stm8s003f3/rtu_impl.c, stm32f103c8/rtu_impl.c: Mcu/Avr, Mcu/Stm8
--               and Mcu/Stm32 have the timers, the ports and the interrupts of each, Mcu/Uart the
--               drivers of ports, and Mcu/Machine a core with its hardware under interrupts;
--               Mcu/Avr/Program has the program of atmega328p/rtu_main.c
--   Tty         linux/tty.c: tty_read, tty_write, tty_read_ll; Tty/Device has tty_init, tty_open,
--               tty_adopt, tty_close and tty_deinit, Tty/Term tty_configure_term, Tty/Debug dump
--               and debug
--   RtuMain     linux/rtu_main.c: the options of the slave's program
--   Hexdump     linux/util.c: hexdump
--   Session     a master and a slave together; Session/Line is a line with a slave for MasterImpl, and
--               Session/RoundTrip two transactions on it
--
-- How state corresponds. A C buffer is the list of its bytes and a pointer into it an index; a read or
-- a write outside the list is `fault`. `State` is struct modbus_rtu_state without the function
-- pointers, whose calls are recorded in `actions`, the last first; `user_data` has any type. Of the
-- null pointers only suspend_cb, resume_cb and timer_cb are modelled. The buffers have ADU_CAPACITY
-- bytes, the default. A callback for PDUs returns the bytes that it writes from dst_begin on; they are
-- copied into the transmit buffer, where more than fit are a fault. An event of the
-- schedule is one whole callback or one whole round of the loop: the source asks for interrupts to be
-- disabled during `modbus_rtu_event`. The Linux adapter sends at once, inside `modbus_rtu_event`;
-- only the call of resume_cb would follow there, and that is null on Linux, so this is the schedule
-- with the end of the transmission right behind the round.
--
-- Loops. The loops of the memory handlers stop at an equality of 16-bit indices. They run on a fuel of
-- one round more than there are addresses to visit, the last of which only sees the end; a run out of
-- fuel is `stuck`. The loops over a CRC's bytes are recursions on the list.
--
-- Assumptions. An int has at least 32 bits, so that the sum of an address and a count in a handler does
-- not wrap; on the AVR and the STM8 it has 16 and may wrap where the window ends near 65536. The
-- step of the CRC of avr-libc is a parameter, with its documented effect as hypothesis.
--
-- The tty of the Linux master is a parameter, a line that sends and brings any bytes; it is only
-- assumed not to bring more bytes than it is asked for. For the slave, the clock, the bytes of each
-- round of its loop and what tty_write takes are parameters, without an assumption. A timeout that is
-- given, other than -1, is not negative. The timer's counters have 64 bits. `event_impl` runs on a fuel of two calls, the loop and the one inside it.
-- In Tty, what poll, usleep, read and write give in each round and the time behind it are a list, and a loop
-- that goes on behind its end is `stuck`; an interrupted poll reports no events, as on Linux. The `snprintf`
-- of Tty/Debug is the C library's, for the formats that are used there.
--
-- The drivers of the microcontrollers are not part of the repository. TimerDriver in Mcu, UartDriver in
-- Mcu/Uart and UsartDriver in Mcu/Stm32/Serial are arguments, with what each macro and function does to
-- the registers that its name says as their laws. While a handler empties a port, no byte comes:
-- each read leaves one less in the queue, which bounds the loop. The interrupt of a timer comes only
-- where it is on; on the STM32, which counts those that are too late, it may come at any time. Handlers
-- and rounds of the loop do not interrupt each other.
--
-- Not modelled: logging; flushing and locking a tty and the transfer of its configuration, which
-- are single system calls; the text of the slave's help; the pins
-- and clocks of the STM32.
pub mod Prelude
pub mod Wire
pub mod Crc
pub mod Memory
pub mod Adapter
pub mod Rtu
pub mod Master
pub mod Session
pub mod MasterImpl
pub mod Timing
pub mod RtuImpl
pub mod Mcu
pub mod Tty
pub mod RtuMain
pub mod Hexdump
