-- ===== src/Lib.antt =====
-- Verification of the Python side of HMTL (python/hmtl): the wire protocol, the framing of the
-- byte stream that comes from a module, the configuration of modules, and the software module
-- that stands in for the hardware.
--
-- The parts, and how they meet:
-- * The protocol (python/hmtl/HMTLprotocol.py, python/hmtl/constants.py) turns a request into the
--   bytes of a message: Protocol/Constants, Protocol/MsgHdr (`MsgHdr`), Protocol/Messages
--   (`get_*_msg` with packed fields), Protocol/Programs (the program classes, with `prepare_msg`
--   as `prepare`). Protocol/Headers has the classes that no message is parsed with.
--   Protocol/MsgHdr/Parse, Protocol/Layout, Protocol/Frame and Protocol/Colors are about them;
--   `Frame.build` calls the builder of a request.
-- * Struct models Python's struct module for the formats that occur (little-endian, no
--   alignment): its documented behaviour for B, H, L and x, with struct.error as an outcome.
-- * The input buffer (python/hmtl/InputBuffer.py) frames what a reader supplies: InputBuffer.antt
--   has the fields of the object as `Reader`, the locals of `_read_item` as `Scan`, one round of
--   its loop as `step`, the loop as `loop`, and the thread as `run`. What `self.read(1)` returns
--   is the list `source` of bytes and empty reads. InputBuffer/Step, Rounds, Total, Frames,
--   Lines, Resync and Stream are about it.
-- * Items go to the circular buffer (python/hmtl/CircularBuffer.py): CircularBuffer.antt and
--   CircularBuffer/History, and CircularBuffer/Threads with `put` step by step beside another
--   thread.
-- * The software module (python/hmtl/emulator) takes messages and time: Emulator/Outputs
--   (outputs.py), Emulator/Programs (programs.py), and emulator.py as Emulator/Device (state,
--   `_install_program`, `_parse_program`), Emulator/Handle (`handle_bytes`), Emulator/Ticks
--   (`_run_programs`, `advance`, `_tick_loop`, `reset`) and Emulator/Control (the two ports). A
--   program is a mutable object that slots share, so the state has a heap of them.
--   Emulator/Effects has what each request asks of a module, Effects/Calls what it makes the
--   emulator call, Effects/Blocks its block, and Effects/Answering what its message does;
--   Emulator/Messages, Payloads, Requests, Blinks, Fades, Sequences, Idle, Sharing, Faults and
--   Tickable are about it; Tickable/Ticking, Running, Placing and Reaching take one tick, all
--   ticks, the other calls, and histories of calls.
-- * Configuration (python/hmtl/config.py, python/hmtl/HMTLjson.py): Config.antt has the header
--   classes with `pack` and `from_data`, and `DumpConfigHdr`; Config/Words the signed field;
--   Config/Json the validation of a JSON configuration (a dict as a record of optional values),
--   and Config/Structs the structs built from it. Config/RoundTrip, Safe and Validation are about
--   them.
-- * Replies.antt has what a module answers (`PollHdr`, `MsgHdr.next_hdr`, `msg_to_headers` of
--   python/hmtl/HMTLprotocol.py), and Replies/RoundTrip is about it.
-- * The serial client (python/hmtl/HMTLSerial.py) waits for a module and sends to it: Serial.antt
--   has the object's fields, and the loops of `wait_for_ready` and `send_and_confirm` over what
--   the queue returns call by call (`Poll`, with the clock). Serial/Ready, Serial/Confirm and
--   Serial/Sending are about them.
-- * The server (python/hmtl/server.py) serves a client over a connection and passes its messages
--   to the serial client: Server.antt has `handle_msg`, `get_data_msg` and the loop of `listen`,
--   and Server/Scanner the `DeviceScanner`. Client.antt has `HMTLClient` (python/hmtl/client.py),
--   whose sending is a round of the server. Server/Connections has `get_connection` and `listen`
--   over one connection after the other, and Server/Threads the steps of the listener and the
--   scanner on the port that they share, under `serial_cv`, with Threads/Whole, Atomic and
--   Progress about them; Connections/Serving and Connections/Undecodable, Server/Rounds,
--   Server/Listen, Server/Scanner/Devices and Client/Session, Progress, Answers, Port, Exchange,
--   Undecoded and Interleaving are about them.
-- * Ports.antt has the opening of a serial port (python/hmtl/SerialBuffer.py) with the states of
--   its modem lines, and the choice of a port (python/hmtl/portscan.py). Ports/Opening and
--   Ports/Choosing are about them.
-- * Triangle.antt has the programs of python/hmtl/TrianglePrograms.py and the choice of a message
--   in python/Triangles.py, and Triangle/Length is about it.
-- * WebClient.antt has what a POST to the form of python/HMTLWebClient.py does, and
--   WebClient/Posts is about it.
-- * MyoClient.antt has what a pose of the arm band sends (python/myo_client.py), with the client
--   and the server behind it, and MyoClient/Poses, MyoClient/Lights and MyoClient/Acked are about
--   it, the last with the module that takes what is sent.
-- * Bootstrap.antt has python/Bootstrap.py, which sets up a new device, and Bootstrap/Plan is
--   about it.
-- * Prelude has lists and tests over native numbers, and the outcome of a Python call: a value or
--   the exception that it raises.
--
-- Bounds: Python ints are taken non-negative (a negative field is refused by struct as one that
-- is too large), but for the value of a value output, which is an integer. The loop of
-- `_read_item` runs on fuel: `read_item` gives it one more than 63 * unread + 56 * collected + (6
-- - empty reads), which every round lowers: a false start code gives back at most seven bytes of
-- eight, and five empty reads in a row are waited for. A clock may go back: a fade for a time
-- before its start writes ints that can be negative (`int_output`). `int(x * 255 / period)` is
-- the integer quotient, as the operands are below 2 ^ 53.
--
-- The loops of the serial client and of the server end with the list of polls that they are
-- given, where they say that they wait. The client's loop for more responses runs on fuel, one
-- more than those polls: every response but the last takes one.
--
-- Parameters: `write` of a reader, `conn.send` of the connection (which delivers, as a named
-- hypothesis), the test of `bytes.decode()` for UTF-8, `int` and `re.search`, pyserial's `open()`
-- (with the line states that it documents, as a named hypothesis), what a listener's `accept()`
-- comes to, and the file system, `str.split`, `os.chdir` and the commands that Bootstrap calls.
--
-- Not modelled: logging and printing; sockets below a connection; values of other types in a JSON
-- configuration; threads but for the circular buffer and the server's two on the port (each
-- operation of the device holds its lock); JSON text; SocketBuffer and StdinBuffer, whose reads
-- are the list `source`; the pages of the web form; the callbacks of the arm band that only
-- print; the command line of HMTLClient, and the C++ firmware.
pub mod Bootstrap
pub mod CircularBuffer
pub mod Client
pub mod Config
pub mod Emulator
pub mod InputBuffer
pub mod MyoClient
pub mod Ports
pub mod Prelude
pub mod Protocol
pub mod Replies
pub mod Serial
pub mod Server
pub mod Struct
pub mod Triangle
pub mod WebClient
