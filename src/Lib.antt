-- ===== src/Lib.antt =====
-- PetKit Local: the add-on in addon/petkit_local that answers PetKit devices in place of PetKit's
-- cloud. This library models its device protocols and the logic on what the devices report.
--
-- A fountain has no network of its own. It talks over Bluetooth to a parent device, which relays
-- its frames over MQTT. `Ble` is that protocol, `Mqtt` the topics and the relay that carry it, the
-- sign-in of devices and the link to the real cloud, `Events` the Timeline that the panel shows of
-- the stored event rows, and `Media` the sweeper that keeps what is stored within its caps. `Http`
-- is what is taken out of the answers of PetKit's cloud when they are handed on to a device.
-- `Devices` are the registry of devices, the writer that keeps a registry on the disk, and the
-- settings that wait for a device; `Ble` has the registry of accessories, which has the same
-- writer. `Utils` are the lookups into the JSON that devices send, the numbers read from it, and
-- the names of files. `Prelude` holds what they share.
--
-- - Ble/Framing.antt: addon/petkit_local/devices/ble/framing.py. `build_ble_frame`,
--   `ble_command_frame`, `iter_ble_frames` for `_iter_ble_frames`, `unframe` for `_ble_unframe`,
--   `decode_data` for `_ble_decode_data`; Ble/Framing/Commands.antt has its constants and
--   Ble/Framing/Words.antt Python's big-endian integers and slices.
-- - Ble/Reading.antt, Ble/Ctw3.antt and Ble/W5.antt: addon/petkit_local/devices/ble/ctw3.py and
--   w5.py, the decoders, the payload builders and the commands of the two fountain families; a
--   dictionary of fields is an association list in the order of insertion.
-- - Ble/Command.antt: `ble_command_for` and `parser_for` of
--   addon/petkit_local/devices/ble/__init__.py.
-- - Mqtt/Topics.antt: addon/petkit_local/mqtt/topics.py; the regular expressions are tests on the
--   segments between slashes.
-- - Mqtt/Relay.antt: the state of `BLERelay` in addon/petkit_local/mqtt/ble_relay.py, as its two
--   tables and the envelopes it has published, and its writes, readings, list refresh and polls.
--   Whether the bridge is connected, and the time, are arguments of a call, once for each await
--   after which the code reads them again; what other calls of the relay do in between is left
--   out.
-- - Mqtt/Upstream.antt: addon/petkit_local/mqtt/upstream.py for one device, with the routing of a
--   message in `_handle_message` of addon/petkit_local/mqtt/bridge.py. The state is what has been
--   published on the two brokers and the rows of blocked attempts. Mqtt/Upstream/Supervise.antt
--   has `wanted` and `reconcile`. Mqtt/Upstream/Runs.antt has the runs: a step is a frame from the
--   cloud or a message of the broker, in any order, each with the settings of its time.
-- - Mqtt/Auth.antt: addon/petkit_local/mqtt/auth.py. `authenticate` and the three hooks of the
--   broker, over the table of live sessions and what the plugin sets on a device; a session is a
--   number, and Mqtt/Auth/Credentials.antt has `parse_client_id` and `compute_aliyun_sign`, where
--   HMAC and `str.lower` are the record `Crypto`. Mqtt/Auth/Open/Runs.antt has the runs of the
--   broker, with the sessions that are open at each time.
-- - Devices/Pending.antt: `remember` and `completed` of addon/petkit_local/devices/pending.py; a
--   queued property write is given by its params and its other fields.
-- - Devices/Persisted.antt: `PersistedRegistry` of addon/petkit_local/devices/registry.py as a run
--   of events on the registry in memory, the dirty flag, the file and the text on its way to it;
--   whether a write goes well comes with the event.
-- - Devices/Registry.antt: `DeviceRegistry` of the same file over the fields of `Device` in
--   addon/petkit_local/devices/base.py that are persisted. Devices/Registry/Saved.antt has
--   `_serialize`, `_restore`, `to_dict` and `from_dict`, Devices/Registry/Fleet.antt the registry
--   as a function of ids, with Devices/Registry/Blanks.antt for what a signup fills in,
--   Devices/Registry/Saved/Settings.antt the default settings, and
--   Devices/Registry/Persistence.antt the registry on top of its writer. Devices/Ids.antt is a
--   dictionary with integer keys.
-- - Ble/Mac.antt and Ble/Registry.antt: addon/petkit_local/devices/ble/registry.py,
--   `normalize_mac`, `register`, `get_by_mac`, `apply_cloud_binding` and the lookups;
--   Ble/Registry/Reports.antt has the fields and the loop that sets them, and
--   Ble/Registry/Bindings.antt has `cloud_bindings`. What Python makes of a character, and `str`
--   of a value that is no text, are the records `Letters` and `Readers`.
-- - Utils/Coerce.antt: `to_int` and `to_bool` of addon/petkit_local/utils/coerce.py; the default
--   of the caller is `none`.
-- - Events/Rows.antt and Events/Sessions.antt with its children:
--   addon/petkit_local/events/sessions.py. `group_sessions` runs the passes in the order of the
--   code on a `Board`, which is the list of cards with the set of used ids; a card that the code
--   mutates is named by its place, and a row or a line by the id of its event, which the database
--   keeps unique. The code tables of addon/petkit_local/events/codes.py are an argument.
-- - Media/Retention.antt: `_select_expired` and `_sweep_directory_sync` of
--   addon/petkit_local/media/retention.py; what `os.walk` and `os.stat` report, and which paths
--   `os.remove` can remove, are arguments.
-- - Media/Caps.antt: `DEFAULT_RETENTION` and `RetentionConfig.update` of the same file, where the
--   numbers of a patch are given as `to_float` of addon/petkit_local/utils/coerce.py sees them.
-- - Http/Redact.antt with its children: addon/petkit_local/http/redact. Http/Redact/Rules.antt and
--   Http/Redact/Uploads.antt are the rules of rules.py, Http/Redact/Walker.antt is walker.py, and
--   Http/Redact/Bodies.antt has `redact_body`, `redact_mqtt` and `cloud_error` of __init__.py. An
--   object is a list of items with distinct keys in the order of insertion. `json.loads` and
--   `json.dumps` are the record `JsonCodec`, and what addon/petkit_local/devices/payloads.py gives
--   of a device is in the record `Device`. Http/Redact/Ours.antt, Http/Redact/Equal.antt and the
--   files below Walker and Bodies are proofs.
-- - Utils/Dicts.antt: `dig`, `dig_path` and `first_of` of addon/petkit_local/utils/dicts.py over
--   JSON as a data type.
-- - Utils/Paths.antt: `sanitize_filename` of addon/petkit_local/utils/paths.py on lists of code
--   points; `os.path.splitext` is that of a name without separators.
-- - Tests: the theorems at concrete inputs.
--
-- Loops are structural recursion on the lists that the code iterates over. Only the walk of a body
-- takes fuel, since it goes on into documents that are encoded as texts and into values of the
-- device's: without fuel it drops the value, and the fuel that is enough is the size of the body
-- and what the walks of the device's values need. The laws on `JsonCodec` are that what
-- `json.loads` reads of what `json.dumps` wrote is what was written, and that a value read is no
-- larger than its text. Integers are unbounded as in Python, and a byte keeps its `% 256`. Times
-- and sizes are natural numbers of a fixed unit, where the code has floats or integers that do not
-- go below zero. Base64, percent-encoding, `str.strip` and `bytes.fromhex` are a parameter, the
-- record `Codec`, with the laws `IsLawful` where a theorem needs them. Of the redaction, the notes
-- of the records and the log lines are left out, and numbers with a fraction are not represented.
--
-- Not modelled: of the registries, the table of default settings, which is an argument, the live
-- state of a device and its payloads, and the reload of accessories; of the bridge, what an event
-- changes of a device and what is published for Home Assistant; of the upstream link, the stored
-- credentials, the connection, the panel log and the capture; the structured payload that
-- `parse_w5_ble_response` accepts beside frames; of the relay, the handling of a response and the
-- endless loop round the polls; of the sweeper, the reading of the stored caps and their conversion
-- to bytes and seconds, the deletion of rows and its timer; the SQL store, the HTTP server, the
-- panel, the patchers, Home Assistant discovery and the start-up, which are mostly input and
-- output; and the parsers of device state and event normalisation, which stand beside what is
-- modelled here.
mod Prelude
pub mod Ble
pub mod Mqtt
pub mod Events
pub mod Media
pub mod Devices
pub mod Utils
pub mod Http
mod Tests
