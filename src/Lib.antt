-- ===== src/Lib.antt =====
-- DigiNode CC: the codec between the server and its mesh radio, the dispatch of mesh packets, the
-- fleet security service with its durable work queue, the WebSocket hub, and the rate limiter of
-- the HTTP interface, modelled from the Go sources.
--
-- The parts and how they interact. The serial manager reads bytes from the radio and feeds them to
-- the frame decoder; each frame that it completes goes through `DecodeFromRadio`, which reads the
-- protobuf wire format by hand and calls a decoder for each message inside. The dispatcher takes
-- what comes out of that, drops the packets that the mesh repeats, decodes payloads, again by hand,
-- and calls its handlers. Two of them are parts of fleet security: the tracker, which finds the
-- request that an acknowledgement or a reply belongs to, and the recovery hook, which finds nodes
-- that were left on an old key and puts a job into the work queue for each; one worker leases and
-- runs the jobs in order. The trust roster records what nodes answer, and guards the updates that
-- operators send. In the other direction the `Build` functions write messages, which `EncodeFrame`
-- frames. What the services have to show goes through the hub to the browsers. The rate limiter
-- stands in front of the HTTP interface, apart from these.
--
-- The files and the code they model:
--   Prelude               what the others share: library names, Boolean tests, lists, sets and
--                         maps, bits, texts
--   Serial.Frame          internal/serial/framing.go: FrameDecoder, Feed, EncodeFrame
--   Serial.Varint         framing.go and encode.go: decodeVarint, encodeVarint, decodeZigzag, fixed32
--   Serial.Wire           framing.go: skipField, and the loop over fields that each decoder has
--   Serial.Field          framing.go: the cases of the switch on the wire type that they repeat
--   Serial.Names          framing.go: hwModelName and roleName
--   Serial.Config         framing.go: decodeConfig and the decoders of its five sections
--   Serial.Node           framing.go: decodeMyInfo, decodeUserInfo, decodePosition,
--                         decodeDeviceMetrics, decodeNodeInfo
--   Serial.Packet         framing.go: decodeMeshPacket, decodeDataPayload
--   Serial.FromRadio      framing.go: DecodeFromRadio, decodeMetadata
--   Serial.Encode         internal/serial/encode.go: every Build function and its helpers;
--                         BuildWantConfig of framing.go
--   Meshtastic.Payload    internal/meshtastic/dispatcher.go: decodePositionPayload,
--                         decodeTelemetryPayload and the decoders of the metrics in it; in Wire
--                         the copies of decodeVarint and skipField
--   Meshtastic.SensorText dispatcher.go: extractSensorShortID, isAHSensorOutput, isGateSensorData
--   Meshtastic.Dedup      dispatcher.go: isDuplicate
--   Meshtastic.Dispatch   dispatcher.go: HandlePacket, in Mesh handleMeshPacket, and in Metrics
--                         RequestDeviceMetrics
--   Fleetsec.Tracker      internal/fleetsec/transactions.go: the tracker
--   Fleetsec.Recovery     internal/fleetsec/recovery_store.go: the recovery cache; ChannelHash of
--                         keys.go; in Hook recovery_hook.go
--   Fleetsec.Trust        internal/fleetsec/trust.go: GetTrust, ListTrust, computeDriftStatus, with
--                         statements of store.go; in Admin SetAdminKeys and SetIsManaged
--   Fleetsec.Collision    internal/fleetsec/psk_collision.go, and RandomPSK of keys.go
--   Fleetsec.Phases       internal/fleetsec/job_handlers.go: the loop of phaseAHandler.Run that
--                         enqueues the jobs of Phase B
--   Jobs                  internal/fleetsec/jobs/jobs.go: the table, its statements, the worker's
--                         rounds
--   Hub                   internal/ws/hub.go and client.go: the loop of the hub, its clients' channels
--   RateLimit             internal/ratelimit/ratelimit.go: Allow, and a sweep of cleanup
-- The modules below each of these hold its proofs, and are named for what they prove (Total and
-- Returns: it returns; Endless and Malformed: where it does not; RoundTrip; Bounds; Valid: an
-- invariant; Conserved: nothing is lost; Overlap and Race: what calls do that run at once; Drain: the queue empties; Covered and Light: what is enqueued; Guards: when it acts); Runs hold
-- tests and the theorems at concrete inputs.
--
-- How the code is rendered. A byte is a number below 256, and a Go `int`, which has 64 bits, is its
-- pattern below 2 ^ 64: a position is negative from 2 ^ 63 on, and additions wrap. Signed 32-bit
-- fields and floats are their 32-bit patterns, since the code only moves them; `voltage > 0` is
-- written out on the pattern. A struct is a record, a pointer that may be nil an Option, a string the
-- list of its bytes. A Go name in camel case is here in snake case: `decodeMyInfo` is
-- `decode_my_info`; an acronym in a type is one word. A decoder gives an `Outcome`: it returned a
-- message and an error, it panicked on a slice out of range, or it is still running. Inside a loop, a
-- `Flow` goes on, leaves the loop by `break` or `return`, or passes on what a nested decoder did. The
-- decoders change a message only where a round ends normally, so that a round that leaves the loop
-- gives the message that it began with.
--
-- The dispatcher gives its new state and the list of the calls that it makes, in their order; which
-- handlers, hooks and callbacks are set is a record of flags. The tests on texts use `ToUpper` and
-- two regular expressions, which are parameters, and so is the protobuf package that the tracker
-- uses. A map is an association list with each key once, a time a number of nanoseconds, and the
-- clock an argument. What a mutex guards is one step.
--
-- The hub and the tracker are state machines over lists of events, in any order: a client may leave
-- at any time, and a watcher fire at any time, as goroutines may. A channel that is closed twice, or
-- sent on when closed, is a panic, written `none`.
--
-- Bounds and fuel. `decode_fields` runs a loop for as many rounds as there are bytes. A round that
-- moves forward reads a byte at least, so that these are enough unless the position moves back; the
-- theorems on termination show this for the inputs they name, and those on endless loops are about
-- every number of rounds. Printing a number has 20 digits of fuel, and a uint64 has no more; the
-- search for a free slot has a round for each of the 6 slots.
-- An input is taken to be shorter than 2 ^ 62 bytes, as a slice in memory is, so that the addition of
-- a small number to a position does not wrap.
--
-- The tables. A table of the database is the list of its rows, a statement a function on it, and a
-- transaction one step; ids and times, which the database and the clock give, are arguments, and a
-- handler of jobs is a function that may change the table and return an error. A call of the
-- recovery hook makes its `HasPendingFor` and its `Enqueue` in two steps, between which those of
-- other calls and the statements of the worker may come.
-- Errors of the database, but where a definition names them, the time limit of a job, and the start
-- and stop of the goroutine are not modelled. The rate limiter's map is a function from addresses.
--
-- Not modelled: the HTTP interface, the web frontend and the services around them (see the parts of
-- internal/ not named here), which are input and output, glue over a database, floating-point
-- geometry or calls of other packages. Of the modelled files: the conversion of coordinates to
-- degrees, the names of frame types and ports for the log, the socket behind a client of the hub,
-- identities and their cryptography, the rotation of keys but for the loop of Phase A, the stranded markers
-- of the trust table, and the audit log.
pub mod Prelude
pub mod Serial
pub mod Meshtastic
pub mod Hub
pub mod Fleetsec
pub mod Jobs
pub mod RateLimit
