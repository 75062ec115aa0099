-- ===== src/Lib.antt =====
-- A verification library of the sender that turns an iPad into a second display of a Windows PC. The
-- sender finds receivers on the network or over USB, picks one, checks that the network is trusted,
-- connects, sends the encoded desktop in framed messages, and injects the touches and strokes that
-- the receiver sends back. Each part below is modelled by functions that follow the C++ functions
-- named after it; an object is a record, and a method takes it and returns the changed one.
--
-- Encode/AnnexB: src/encode/AnnexB.cpp. `scan_start_codes` (ScanStartCodes) cuts the encoder's
--   output, `ensure_parameter_sets` (SpsPpsCache::EnsureParameterSets) puts cached parameter sets in
--   front of key frames, `build_access_unit` (BuildAccessUnit) makes the payload of a video message.
-- Net/Connection: src/net/Connection.cpp. `send_frame` and `read_frame` (SendFrame, ReadFrame) carry
--   those payloads and the control messages. The socket and the clock are parameters, given as the
--   answers to the calls in their order. An `Interrupt` of another thread during a call shows as a
--   `recv` or `send` that fails.
-- Net/Protocol: src/net/Protocol.cpp. Telling control messages from video (`is_control_payload`), the
--   scan for members (`find_value_start`), `parse_control_message` and the serializers. The
--   conversions of doubles are parameters.
-- Net/NetworkSafety: src/net/NetworkSafety.cpp. `check_trusted_lan` (CheckTrustedLan) with the resolver
--   and the Windows network list as parameters.
-- Net/Discovery: src/net/Mdns.cpp. The cache of found receivers (`merge`, `expire`, `find_by_id`), the
--   reading of names (`read_name`) and of whole responses (`parse_response`) in DNS packets, and the
--   packets that the sender writes (Response/Build).
-- Net/UsbMux: src/net/UsbMux.cpp. The texts that Apple's service answers with, and the device list.
-- App/DeviceCoordinator: src/app/DeviceCoordinator.cpp. Which device is tried next.
-- App/Panel: lines 42 to 130 of src/app/SenderApp.cpp. The panel size that the senders share;
--   Sharing runs several senders' claims, with a refused rotation of lines 824 to 840.
-- App/Session: src/app/SenderApp.cpp, RunLoop. `prepare` is the body of the loop up to the stream,
--   `stream` the events that change or end it, `run_loop` the whole, with the answers of the
--   connection, the receiver and the displays as arguments. It claims the panel of App/Panel and checks
--   the identity with Net/Protocol.
-- App/UiModel: src/app/UiModel.cpp. The device entries as text, and the redaction of addresses, profile
--   paths and USB targets in diagnostics (`redact_diagnostics_text`).
-- App/Config: src/app/Config.cpp and Config.h. The settings that the coordinator reads: the JSON parser
--   (Json), what `parse` makes of old and damaged texts (Parse), `serialize` (Serialize), and loading
--   and saving over the file calls of Windows, which are parameters (Store).
-- Input/Injector: src/input/InputInjector.cpp. The handlers, with the injected events as their output;
--   the arithmetic on doubles and the answers of Windows are parameters.
-- Common: names passed on, lists, tests, integers and text, used by all of them.
--
-- Loops are structural, or run on fuel that is enough: a round of `read_loop` or `write_loop`
-- that moves no byte is the last, so they get as many rounds as bytes; `find_loop` and `list_from` move forward in the text
-- and get its length and one more; `read_name` follows at most 16 pointers and between two of them
-- moves forward, so 18 walks over the packet are enough; the loops of the redaction move forward in
-- the text too. A value of the settings' JSON costs at most two calls for each byte. A number of the source that cannot be negative is a natural number; where a width
-- matters (ports, lengths, `strtoul`) the bound is written out. Floating point is never computed.
--
-- Not modelled: the tray and the launcher windows, the virtual display driver, frame capture and the
-- video encoder, which are calls of Windows; sockets, file paths and the multicast browse; the frames
-- of a session and its statistics, the tables of display texts and the routing of windows.
pub mod App
pub mod Common
pub mod Encode
pub mod Input
pub mod Net
