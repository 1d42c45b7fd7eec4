-- ===== src/Lib.antt =====
-- go-iot-client: clients for industrial controllers (PLCs and Modbus devices), in Go.
--
-- The program has one interface (clients/interfaces.go: Open, Close, Connected, ReadInt16, ReadInt32,
-- ReadFloat, ReadString, Write) and one implementation of it for each protocol. Modelled are the
-- interface, the Modbus clients (clients/modbus/stub_clients.go), the Mitsubishi client
-- (mitsubishi_client.go), the Siemens, Omron and Allen-Bradley clients (clients/plc), the result and retry
-- models that they share (core/) and the mock PLC of the Mitsubishi tests (mock/server.go).
--
-- The files
--   Base        the native ℕ, lists, Go's integers, slices and words, and Outcome: a Go call returns a
--               value, returns an error, or does not return; a method is a function from the state to an outcome
--               and the state it leaves (M, with the steps of a do block as `if err != nil { return }`)
--   Text        the functions on text that the code takes from strings, strconv and encoding/hex, on
--               ASCII bytes; Text/Laws is about reading back what itoa wrote
--   Core        core/result.go and core/retry.go; Report is how a method makes a result of an error
--   Retry       the retry loop that the clients have in sendPDU, sendRequest, sendCommand and withRetry
--   Value       the value of `Write(address string, value interface{})`
--   Net         what the code uses of net, time and go.bug.st/serial, as a record of operations on an
--               unknown world; Net.IsLawful is what their documentation promises; Net/Full is
--               io.ReadFull over such reads; Net/Keeps are the rules for what a call keeps of a client;
--               Net/Stream is a connection to a device that answers, in chunks of any size
--   Modbus      clients/modbus/stub_clients.go: Checksum (crc16, lrc), Client (the struct, constructors,
--               setters, Open, Close), Frame (sendTCPFrameLocked, sendRTUFrameLocked,
--               sendASCIIFrameLocked and the two readers), Exchange (sendPDUOnceLocked, sendPDU),
--               Registers (readRegisters, writeRegisters, writeCoil), Api (the methods), Public (the four
--               public clients, which forward to it)
--   Mitsubishi  mitsubishi_client.go: Client (the struct, constructor, setters, dialing, Open, Close;
--               Address is parseDAddress), Request (readFull, sendRequestOnceLocked, sendRequest), Words
--               (readWords, writeWords), Api (the methods)
--   Siemens     clients/plc/siemens_client.go: Gos7 (what it uses of github.com/robinson/gos7), Address
--               (parseSiemensAddress), Client (the struct, constructor, setters, openLocked, closeLocked,
--               ensureConnectedLocked, withRetry, Open, Close), Api (readBytes, writeBytes, the methods)
--   Omron       clients/plc/omron_fins_client.go: Client (the struct, constructor, setters,
--               handshakeLocked, ensureConnLocked, Open, Close), Address (parseOmronAddress), Command
--               (buildMemoryCommand, sendCommand, readWords, writeWords), Api (the methods)
--   AllenBradley  clients/plc/allen_bradley_client.go: Client (the struct, constructor, setters,
--               registerSessionLocked, ensureConnLocked, Open, Close), Frame (buildReadCommand,
--               buildWriteCommand, validateAllenTag), Command (sendCommand, readRaw), Api (the methods)
--   Iot         clients/interfaces.go: the interface, what a caller may rely on, calls one after the other,
--               and the five clients as implementations of it (each one's child Reliable); Values is about
--               what Write sends of a value and what the reads make of it
--   Mock        mock/server.go: the registers, the injected failure, processRequest and the two handlers;
--               Session is handleConn as the device of a stream; Exchange, Memory, Recovery, Requests and
--               Methods are about the Mitsubishi client on it
--   Tests       the theorems at concrete inputs, and runs
-- In Mitsubishi/Request and Modbus/Frame, Exchange is about one exchange on a stream, and
-- Modbus/Frame/Wire writes the frames of the Modbus documents down (framed), apart from the code. In
-- Modbus/Exchange, Stream says what it is that a device speaks a wire mode (Serves), Refines compares
-- sendPDU with a master that has no wire, and Recovery is about a device that refuses requests. In
-- Modbus/Registers, Bank is a device that holds registers. Equivalent, there and in Modbus/Api,
-- compares clients in two wire modes, as Sessions does for calls in any order. ReadBack is about what
-- is written and read again, for Siemens with Store, the reads and writes with their retries.
-- Base/Alike and Retry/Alike are the rules for two calls in step, Net/Stream/Steps those for what
-- follows a read. The children named Safety, Invariant, Laws, Lengths, Reliable, Runs, Stream, Rtu,
-- Ascii, Crc, Lrc and Bytes hold the proofs.
--
-- A method works on a State: the client's fields and the world. A call is one step, and the
-- mutex of the clients is not modelled. Some fields are read before a method takes it: the Omron and
-- Allen-Bradley clients build a command from their fields, the Mitsubishi client looks at its version in Open
-- and at its timeouts in readWords and writeWords. That another call comes between is not modelled. The clock
-- readings of a Result are left out, and an error is a constructor that stands for its message. The
-- deadline of a connection is passed on as the timeout that was added to the clock.
--
-- Loops: the retry loop goes down on the attempts left, so it ends by its structure. readFull and
-- io.ReadFull run on fuel, one round for each byte that is missing; that is enough, because a lawful
-- read that reports no error brings at least one byte. Where the fuel runs out the outcome is the
-- same as that of a panic, that the call does not return, so a theorem that excludes it says that there is
-- no panic and that the loops end. The reader of ASCII lines goes round at most 1024 times, as
-- in the code. Itoa has one digit of fuel more than the number.
--
-- The calls of net, time and go.bug.st/serial are a parameter. A serial port whose Read returns no bytes
-- and no error after its timeout does not meet the documentation of io.Reader; the theorems that take
-- IsLawful as a hypothesis say nothing about it.
--
-- The mock PLC on a stream gets each request in one Write, as the client sends it, and answers it in one
-- round of handleConn; a handler that panics sends nothing. A request of the client has at most 65535
-- bytes behind its header, so the index that handleWrite computes in uint16 does not wrap.
--
-- A Modbus device is a parameter too: a function on PDUs, behind a connection that frames its replies in the
-- client's wire mode (Serves). Its replies are the exceptions, reads and echoes that readRTUResponse knows
-- (IsReply), and IsBank is what the Modbus specification says of the functions 0x03 and 0x10.
--
-- gos7 is a parameter of the Siemens client: a read fills the buffer of the caller and a write takes its
-- bytes, each with or without an error; Siemens.Gos7.IsLawful says that dialing returns and that a buffer
-- keeps its length, and Siemens.Api.Store.IsStore that it reaches a controller, which keeps what is written.
--
-- Not modelled: the listener of the mock server, text outside ASCII in addresses, the wording of error
-- messages, and the memory that a response takes: an Omron response may announce up to 2^32 - 1 bytes.
pub mod Base
pub mod Text
pub mod Core
pub mod Value
pub mod Retry
pub mod Net
pub mod Modbus
pub mod Mitsubishi
pub mod Iot
pub mod Siemens
pub mod Omron
pub mod AllenBradley
pub mod Mock
mod Tests
