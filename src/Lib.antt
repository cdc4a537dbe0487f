-- ===== src/Lib.antt =====
-- serial_ip: a program that joins a serial port to a TCP client, which speaks Telnet (RFC 854) and may
-- set the port by the Com Port Control option (RFC 2217).
--
-- Bytes move between two descriptors through buffers. What comes from the serial port is put into a
-- buffer, each IAC in it is doubled, and it is written to the socket. What comes from the socket is put
-- into another one, the Telnet commands in it are acted on and taken out, and the data that is left goes
-- to the serial port. Answers to commands go into a third buffer, which is written to the socket at once.
--
-- The modules, and the code that each is about (the files stand at the repository's root):
--   Base               numbers, lists, options, blocks of memory, switches
--   Buffer             buffer_handle.c: struct buffer_t as the record Buffer, its pointers as offsets into
--                      one block of `size + 1` bytes. The children Edit, Append, Fill and Drain hold the
--                      proofs for the functions that cut, insert, append, read and write.
--   Serial             the speed tables of utilities.c, the line settings and the
--                      port pool of serial_handle.c
--   Telnet             telnet.c: Session holds its globals with the buffer of answers, the socket and the
--                      device; Negotiation the options; Escaping and Commands the two directions of the
--                      data; Cpc the Com Port Control suboptions, with what a request gets in Answered;
--                      Scan is mystrchr of utilities.c
--   NetworkController  network_controller.c: reading and writing the two descriptors
--   Raw                raw.c: both directions without Telnet, over fixed arrays
--   Connection         network_handle.c: one round of the loop that serves a client, as a function of the
--                      answers of the system in it, and the loop over a list of rounds; Start is the
--                      whole of serial_ip_communication_process, Accepted that of
--                      parent_accept_socket_connection of network_controller.c
--   Server             network_handle.c: the server's socket and the loops that accept clients
--   Device             serial_init_termios of configuration.c; Opening is serial_port_init and
--                      serial_cleanup of serial_handle.c
--   Signals            signal_handle.c and debug_handle.c: what signals do to the globals
--   LockFile           pidfile_handle.c: Files is the directory, Paths the names; Race has several
--                      processes, which end too, one call of the system at a time (only fstat and
--                      read are one step), and Selection the port pool with these locks
--   EscapeSequence     escape_sequence_handle.c
--   Configuration      one line of the configuration file, from utilities.c; Content, Actions and File
--                      the file of configuration.c, Sane its sane_config, Value save_value of utilities.c
--   Program            the options and the start of serial_ip.c
--   Names              the names of codes for the log, from utilities.c
--   Examples           the theorems at concrete inputs
--
-- Functions keep their names; what a C function changes it takes and returns. Where the code would touch
-- memory outside a block or behind a string the result is `none`. Descriptors and devices are outside
-- the program: what read, write, tcgetattr, tcsetattr and malloc answer is a parameter (the record
-- Outside, and an argument `read` or `write`), the only facts used being that read stores and write takes
-- no more bytes than it is given (IsBoundedRead, IsBoundedWrite) and, where stated, that the device
-- answers (Answers). Loops without a bound in the code run on fuel: one round for each byte of the buffer
-- and one more, which is enough since each round passes or removes a byte. The choice of a port takes the
-- number of rounds as an argument. The loops over rounds, accepted clients, lines and signals end with the
-- list of what the system answers.
--
-- Files are a directory from paths to numbered files with their bytes: open creates, link and unlink are
-- atomic and add or remove a name, and a write changes the file under all its names, as POSIX has it. What
-- is refused beyond that is a parameter (System), and so are the numbers that C's atoi and atol read, the
-- users, groups and directories of the host and the success of malloc.
--
-- Not modelled: logging and dumps, waits, bfstrstr and bffree, telnet_option2str, esprintf, and the files
-- mydaemon.c and systemlog_handle.c, the installation of signal handlers, main, the freeing of memory,
-- and the death of a process in the middle of `create_uucp_lockfile` or with the lock in its hands. A
-- `char` is a byte, an `int` that holds a size a natural number; sizes stay below the block's and do not
-- overflow.
pub mod Base
pub mod Buffer
pub mod Serial
pub mod EscapeSequence
pub mod LockFile
pub mod Raw
pub mod Signals
pub mod Connection
pub mod Server
pub mod Program
pub mod Configuration
pub mod Names
pub mod Examples
pub mod NetworkController
pub mod Telnet
pub mod Device
