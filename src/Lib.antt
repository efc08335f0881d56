-- ===== src/Lib.antt =====
-- Verification of a bit-banged USB host for the RP2040 (crate embassy_rp_pio_usb_host): the pure
-- core that its firmware tasks and PIO programs stand on.
--
-- The program's parts and how they interact. The bus is sampled by PIO; the detector of src/lib.rs
-- turns samples into attach and detach events. A host transaction builds packets (src/usb.rs:
-- tokens, data packets, checksums) and hands their bytes to the transmit PIO program of
-- src/pio_host/rp2040.rs, which does NRZI and bit stuffing itself; data toggles decide which answer
-- of the device is new. EncodedPacket and decode_nrzi of src/usb.rs are a software encoder and
-- decoder of the same line code, which this transmit path does not use. Enumeration sends setup requests and parses descriptors; the class clients find their
-- interfaces by the discovery loops over the configuration's descriptors.
--
-- Which file models what. The names are the program's, in snake case.
--   Port             src/lib.rs: LineState, BusEvent, AttachDetector (update is split into
--                    count_sample and settle); Port/Debounce compares it with the sample history
--   Wire/Pid, Crc    src/usb.rs: packet identifiers, crc5_token, crc16_data
--   Wire/Packet      src/usb.rs: RawDataPacket, token_packet, sof_packet, parse_packet
--   Wire/Nrzi        src/usb.rs: EncodedPacket::encode and push, decode_nrzi; Wire/Nrzi/LineCode is
--                    an independent description of NRZI with stuffing, to which both are compared
--   Wire/Toggle      src/usb.rs: classify_in_data, DataToggle, CdcAcmDataState; Link is a host and a
--                    device that use them, over attempts of which some fail
--   Request          src/usb.rs: SetupRequest
--   LineCoding       src/usb.rs: CdcLineCoding
--   Descriptor       src/usb.rs: DeviceDescriptor, ConfigurationDescriptorHeader, DescriptorIter,
--                    EndpointDescriptor, InterfaceDescriptor, mark_seen
--   Hid              src/usb.rs: HidDescriptor, HidInterfaces, HidInterface
--   CdcAcm           src/usb.rs: CdcAcmFunctions, CdcAcmFunction; Control and Data are the two loops
--                    over descriptors, Candidate what is made of them
--   Ftdi             src/ftdi.rs: FtdiChip, in Discovery FtdiInterface and its discovery, in
--                    Read FtdiHost::read and copy_buffered
--   Host/Types       the types of embassy-usb-driver that src/pio_host.rs uses, with its variants
--   Host/Port        src/pio_host.rs: PortState, PioHostPipe::check_valid
--   Host/Events      src/pio_host.rs: PendingEvents; Log is the history that it stands for, Outlook
--                    what it tells the controller
--   Host/Shared      src/pio_host.rs: SharedState, each block of PioHostState under its lock; Tasks is
--                    the step relation of the tasks that run these blocks
--   Host/Validate    src/pio_host.rs: alloc_pipe, validate_pipe and the checks by speed
--   Host/Pipe        src/pio_host.rs: TransactionOutcome, request_out and its retry loop; In is
--                    request_in with request_in_packet, Control control_in and control_out
--   Host/Engine      src/pio_host/rp2040.rs: out_once, request_out_once, in In in_once and
--                    request_in_once; Diagnostics is InTransactionDiagnostics of src/pio_host.rs
--   Host/Delivery    request_out of a pipe over request_out_once of the engine; Bench is a device for
--                    its example
--   Usbtmc           src/usbtmc.rs: in Discovery UsbtmcInterface and its discovery, in Message the
--                    framing of UsbtmcHost::write and read, read_response, capabilities
--   Common           shared: results, lists and bytes measured by native numbers, bit operations
--
-- How the code is modelled. Integers are natural numbers; a machine integer's wrap-around is
-- written out where the code can reach it (casts to u8 and u16, shifts, saturating_add), and bytes
-- are numbers below 256 by hypothesis (IsBytes). A slice is a list; byte_at reads 0 out of range,
-- which the code's own length checks keep from mattering. `?` and early returns are the bind of
-- Result. A loop over a slice is a recursion on the list, with the loop's variables in a record
-- (Encoding, Decoding, Scan, DataScan, ControlScan, FtdiScan, TmcScan) and its body in a function. The
-- results of a bulk pipe, which belongs to another crate, are a list that the model takes (Ftdi/Read,
-- Usbtmc/Message).
--
-- The adapter's tasks run concurrently and share two locks. What runs under the blocking lock is one
-- function on SharedState; Host/Shared/Tasks has one step for each such block, with the holder of the
-- engine's lock and how far it is (Engine), so that a reachable World stands for any interleaving,
-- cancelled resets included. A pipe's loop reads the port three times in each pass: the readings are
-- a list that the model takes, and a loop that comes to its end is still waiting. The state machines
-- of the PIO and the device are the records Wire and InWire of functions on a world; IsUsbOut states
-- the rules of USB 2.0 that the device keeps. Deadlines and yields between passes only choose the readings.
--
-- Bounds and fuel. The encoder's buffer has 48 bytes of four symbols, the decoder's 104 bytes, as
-- in the code. `pad` has fuel 3: fewer than four padding symbols complete a byte. `items` runs the
-- descriptor iterator with fuel one above the total length, which is enough because every
-- descriptor it returns has two bytes or more.
--
-- Not modelled: of the host adapter the progress markers (src/pio_host.rs), of the RP2040 backend
-- control transfers and what drives registers (src/pio_host/rp2040.rs), of the class clients
-- src/cdc_acm.rs, src/hid.rs and src/audio.rs, of src/ftdi.rs all but its discovery and reads, of
-- src/usbtmc.rs the allocation of pipes, the firmware (src/main.rs), the examples and the build
-- script. The PIO programs and the wire are hardware. `line_states` of Wire/Nrzi/RoundTrip is this
-- development's reading of the symbols of EncodedPacket as states of the line.
mod Common
pub mod Port
pub mod Wire
pub mod Request
pub mod LineCoding
pub mod Descriptor
pub mod Hid
pub mod CdcAcm
pub mod Ftdi
pub mod Host
pub mod Usbtmc
