-- ===== src/Lib.antt =====
-- A verification library for the realtime voice agent. Devices ask the session director for a
-- worker (bootstrap), get a signed grant for one worker and one lease, connect to that worker, and
-- exchange media and control messages in the RVA protocol.
--
-- Parts and files
-- Contracts/Models, Contracts/RouteKey: server/packages/voice_contracts/src/voice_contracts/models.py,
--   the records that director, worker and client exchange, and `encode_route_key`.
-- Contracts/Validation: the validators there; Contracts/Grants: `GrantCodec` of grants.py beside it.
-- Director/Store: `InMemoryCoordinationStore` of
--   server/apps/session_director/src/session_director/store.py. `Store` has its four dictionaries; one
--   function for each method, under the method's name. Each method holds one lock and is one step.
--   `acquire_route` is split into `drop_expired`, `acquire_live` (the guards) and `grant_lease`, and
--   `consume_grant_result` into `prune_jti`, `check_claims` and `consume_pruned`. Store/History has
--   the calls and their runs; its siblings hold the proofs on fencing tokens, grants, capacity and
--   draining.
-- Director/Service and Service/Candidates: `DirectorService` of
--   server/apps/session_director/src/session_director/service.py, on that store. The grant codec, the
--   clock and the random identifiers are parameters and arguments.
-- Worker/Admission: `SharedSessionAdmission` of
--   server/apps/realtime_worker/src/realtime_worker/admission.py.
-- Worker/VoiceSession: `VoiceSessionState` of voice/session.py there: which playback owns a
--   connection. The asynchronous close is its state change and the list of port failures.
-- Worker/Response: `ResponseCoordinator` of bindings/rva/response.py there, on the voice session.
--   Records are mutable and compared by identity: they live in a store `objects`, and a field that
--   holds a record holds its number. Response/Playback has the playback facts; its other children
--   hold the proofs.
-- Worker/Auth: auth.py there; Auth/Bootstrapped goes from a bootstrap to it.
-- Worker/Interruption: interruption.py there: the policy, and the coordinator with its task as
--   explicit turns.
-- Media/Replay: the two `ReplayWindow` classes, of transport/udp_wire.py in the worker and of
--   clients/desktop_reference/src/rva_desktop/protocol/udp.py. Bitmaps are natural numbers.
-- Media/Frame: the 32-byte media header and the client's `MediaFrame` of protocol/media.py there;
--   Media/Wire: the Worker's codecs of the same bytes, `WssMediaFrame` of bindings/rva/protocol.py
--   and `UdpPacketHeader` of transport/udp_wire.py. Frame/Exchange compares the ends.
-- Media/Gateway: `UdpMediaSession` of transport/udp_gateway.py in the worker, one device's UDP path.
--   `Session` has its fields, and lists of what it gave to the receiver, sent, encrypted and reported.
--   Gateway/Send is `_send` and `send_audio`; Reorder is the reorder buffer; Handle is `_handle`, a
--   function for each branch, with the readings of the clocks in a `Moment`; Events has `enqueue`,
--   `_run`, `_expire`, `close` and the runs over all of these as events. AES-GCM is the parameter
--   `Cipher`. The proofs go over a smaller state: a `View`, and the `Move`s of views that every event
--   is made of (Moves, Keeps, Sending, Handling, Traces).
--   Gateway/Routing is `UdpMediaGateway`, its sockets named by the number of their start.
-- Client/Messages: `build_session_open` of protocol/control.py in the client, and of config.py what it
--   reads; Messages/Server is `validate_server_message`, Messages/Opened `parse_session_opened`.
-- Worker/Protocol: the reading of control messages of bindings/rva/protocol.py in the worker.
-- Worker/Binding: `RvaWssBinding` of bindings/rva/binding.py there, on the response coordinator:
--   the opening here, control messages in Binding/Control, transcripts, responses and audio frames in
--   Transcripts, Responses and Media. A call returns the new binding beside its result. Orders and
--   Cancels hold proofs on runs of calls.
-- Worker/Handshake: the client's messages against the Worker's reader and the other way round.
--   Handshake/Grant is `_rva_udp_grant` of bindings/rva/runtime.py.
-- Common/Json: JSON values. A control message stands for the object that its text says; `Loaded` is
--   what json.loads made of a text, and the length of an encoded object is a parameter, as Base64 is.
-- Client/SessionState: `SessionState` of session/state.py in the client. Control is `accept_control`,
--   one function for each kind of message; MediaGate is `accept_media`; Playout is what the client
--   reports. Client/Reports puts the client's reports against the Worker's tests.
-- Client/AudioQueue: `BoundedAudioQueue` of audio/queue.py there, one turn of a task at a time.
-- Client/PcmFramer: `PcmFramer` of audio/resample.py there.
-- Common: lists, dictionaries (association lists that keep insertion order, as Python's do), sorting,
--   bits, and key types with a lawful Boolean equality. Text is a list of character codes.
--
-- Bounds. Loops are over finite lists and are structural recursion, but for two. The fuel of the
-- framer's is the length of the buffer, and each round takes a byte or more; that of the loop of
-- `_drain_reorder` is one more than the packets in the buffer, and each round takes one out. Clock
-- readings, which the program keeps as floating-point seconds, are natural numbers: only their order
-- and sums are used. Sequence numbers and tokens are unbounded, as Python's integers are, and the
-- tests that keep them below 2^32 are written out where the source has them; JSON numbers below zero
-- are a constructor of their own, since every reader refuses them.
--
-- Concurrency. A step is what runs between two points where the event loop can change tasks. The
-- receiver of UDP audio is taken to return, neither suspending nor raising, and a call of the binding
-- to end before another begins.
--
-- Not modelled: the Redis store (Lua inside Redis), HTTP routes and settings, sockets and the asyncio
-- protocol on them, the text form of JSON, the RVA runtime but for its grant, the client's transports,
-- AES-GCM, Opus and audio devices, speech and language services, logging, tooling and firmware.
pub mod Common
pub mod Contracts
pub mod Director
pub mod Worker
pub mod Media
pub mod Client
