-- ===== src/Lib.antt =====
-- A model of the army3 offline server: a loopback server for an old game client, which logs the
-- client in without accounts, and of the tools beside it, which make a copy of the client that connects
-- to the loopback and look into its memory. They are the packages `server` and `tools` of this
-- repository.
--
-- The parts, from the wire up, and the files that model them:
--   * server/army3_protocol/errors.py: Exec.antt. The exception classes are the constructors of
--     `Error`. A method that changes an object and may raise is a function from the object's state
--     to a result and the state it leaves, which is kept when it raises.
--   * server/army3_protocol/transform.py: Transform.antt, with Transform/. The XOR key made from the
--     seed of the handshake, and the cursor that moves over it.
--   * server/army3_protocol/framing.py: Framing.antt, with Framing/. Packets, `encode_frame`, and the
--     decoder that cuts a stream of bytes into packets. Framing/Parse.antt says what a frame is;
--     Framing/Chunks.antt feeds a stream in pieces.
--   * server/army3_protocol/primitives.py: Primitives.antt, with Primitives/. The reader and the writer
--     of payloads. Utf8.antt and Bytes.antt write out `str.encode`, `bytes.decode`, `int.to_bytes`
--     and `int.from_bytes` of Python.
--   * server/army3_protocol/messages.py: Messages.antt, a module for each message class, with the
--     methods' names. Messages/Rules.antt holds what they share.
--   * server/session.py: Session.antt (the state and the decoding methods) and Session/Handlers.antt
--     (the `_handle_…` methods). Session/Steps.antt is the abstract login: the steps that a packet can
--     cause in each state. Session/Steps/Handled.antt relates the handlers to it, and
--     Session/Progress.antt, Session/Once.antt, Session/Areas.antt and Session/Login.antt follow
--     it over a connection.
--   * server/app.py: App.antt, with App/. `_handle_client` on a list of events: bytes that were
--     read, or the timeout of the read. App/Valid.antt holds what is true between two packets.
--     App/Peer.antt puts a client's decoder behind one answer, App/Connection.antt behind all that is
--     written over a connection; App/Pieces.antt compares ways to cut the stream.
--   * server/config.py: Config.antt. The checks of the integers.
--   * tools/redirect_client.py: Redirect.antt, with Redirect/. Redirect/Paths.antt and
--     Redirect/Files.antt are the paths and the file system of `pathlib`, `os` and `shutil`;
--     Redirect/Manifest.antt is `load_manifest`, Redirect/Verify.antt the `verify_…` functions,
--     Redirect/Patch.antt `_patch_metadata` and Redirect/Create.antt `create_patched_copy`.
--     Redirect/Plan.antt says which plans there are, Redirect/Files/Frame.antt what a sequence of
--     calls changes.
--   * tools/inspect_runtime_state.py and tools/inspect_runtime_vtable.py: Inspect.antt, with Inspect/.
--     `ProcessReader` over a record of what kernel32 gives; Inspect/Objects.antt has the readers of
--     objects and arrays, Inspect/Localization.antt `_localization_text`, and Inspect/Decoding.antt
--     the decoders of Python with errors="replace". Inspect/Strings.antt is about string objects.
-- Common.antt and the files under it hold the shared notation and lemmas. The modules called Runs
-- evaluate the code, and apply the results, at concrete inputs.
--
-- How they interact: `_handle_client` feeds what it reads to the decoder, one packet at a time,
-- gives the packet to the session, writes the frames of the answer, and then turns the
-- transformation on in both directions if the answer says so.
--
-- The file system of Redirect/ is a list of paths with what stands at them. Any call of it may fail:
-- the state has a list of faults, each of which says what a failing call leaves at and below its path.
-- Only `shutil.rmtree` is taken to work. Another process that changes files meanwhile is not
-- modelled. A link is taken to lead to a file that is there and may not be opened. Other links are not
-- modelled: dangling ones, for which `Path.exists` is false, and ones to readable files, through which
-- `verify_patched_copy` would read the marker; the files of the manifest are tested for links before
-- they are read. `hashlib.sha256`, `json.dumps` and `json.loads` are fields of `Library`, any functions
-- at all; the functions of kernel32 are fields of `Windows`.
--
-- Numbers: bytes and commands are natural numbers, with their bounds as hypotheses; the integers of
-- the messages are integers, so that the range checks of the writer are there. A text is the list
-- of its code points. Tests by `isinstance` have no counterpart.
--
-- Fuel: the loop of `feed` gets one round more than the buffer has bytes, `process` (the inner loop of
-- `_handle_client`) likewise, and the loop over the records of an area list one more than bytes are
-- left: each round takes a byte at least. A loop without fuel raises `out_of_fuel`, which no result
-- admits.
--
-- Not modelled: the log, the messages of the exceptions, sockets, the clock, the start-up code
-- (server/main.py), the host and the interval of the configuration, the command lines of the tools,
-- tools/probe_loopback_service.py, which prints what a socket receives, and `inspect`, which lists
-- what the readers give at fixed offsets as JSON. The session's results take the range of the splash revision
-- as a hypothesis; Config/Valid.antt takes it from the configuration.
pub mod Common
pub mod Exec
pub mod Bytes
pub mod Transform
pub mod Framing
pub mod Utf8
pub mod Primitives
pub mod Messages
pub mod Session
pub mod App
pub mod Config
pub mod Redirect
pub mod Inspect
