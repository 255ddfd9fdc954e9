-- ===== src/Lib.antt =====
-- Counter-cruiser: a camera client sends frames to a detection server, and raises an alarm when a dog
-- is on a kitchen counter.
--
-- The client's session (client/transport.py) captures frames, keeps the newest ones, and sends them to
-- the server's handler (server/handler.py), which answers each with the dogs that the model
-- (server/model.py) finds. For each answer the client calls `on_result` (client/__main__.py): it reads
-- the zones of the zone store (client/web/zone_store.py), analyzes the boxes (shared/geometry.py), adds
-- the verdict to the debounce window (shared/debounce.py), updates the dashboard
-- (client/web/state.py), and, if the window says so, asks the alert manager
-- (client/alerts/manager.py), which calls the deterrent (client/alerts/deterrent.py) and the other
-- handlers. The web threads edit zones and read the dashboard. All paths are under counter_cruiser/.
--
-- Files:
--   Prelude     lists, integers, texts, exceptions as values, floats as a parameter
--   Zone        `Zone` and its validator (config/models.py), `BoundingBox` (shared/protocol.py)
--   Settings    the other models of config/models.py: Fields has what a source gives and how two sources
--               are merged, Defs the models; Steps, Built, Accepted and Bounds have the proofs
--   Debounce    `DetectionHistory` (shared/debounce.py); Pairs and Window have the proofs
--   Geometry    shared/geometry.py; Laws and Floor have the proofs
--   Config      config/loader.py; Fields, Reload and Missing have the proofs
--   Protocol    messages and frame codec of shared/protocol.py
--   Alerts      client/alerts/context.py; Alerts/Manager is client/alerts/manager.py, its Dispatch is
--               about one call, its Spacing about runs; Notifications and Log are
--               client/alerts/notifications.py and log.py, Texts is about both
--   Annotation  client/annotation.py
--   Snapshot    client/alerts/snapshot.py; Names, Retention and Failures have the proofs
--   Stats       client/deterrent_stats.py and client/web/routes_deterrent_stats.py; Reads has the proofs
--   Deterrent   client/alerts/deterrent.py; Burst and Settled have the proofs
--   ZoneStore   client/web/zone_store.py; Lists, Invariant, Outcomes, Requests and File have the proofs
--   Routes      client/web/routes_zones.py; Accepted and Answers have the proofs
--   Dashboard   client/web/state.py; History has the proofs
--   Camera      client/capture.py; Held has the proofs
--   Transport   the session of client/transport.py: Defs has the rounds of its two loops, Run the outline
--               of the reconnect loop; Numbered, Buffer, Reconnect and Latency have the proofs
--   Connection  the whole session of client/transport.py: Defs has one connection with its two tasks in any
--               order, Run has `run` over the camera, the session and the client behind the callbacks; Wire,
--               Every and Sent are about what is sent, Outline and Refined about the outline, Stopped about
--               `stop`, Released about the camera, Invariant about the client
--   Stream      client/web/mjpeg.py; Pacing has the proofs
--   Status      client/web/routes_dashboard.py; Reads has the proofs
--   Client      client/__main__.py: Fps is `_FpsTracker`, OnResult is `on_result`, Receive is
--               the session's receive loop with that callback, Handlers is `_build_alert_manager`;
--               Alarm, Merged, Interplay, Reached, Kept and Pin have the proofs
--   Main        `main` of client/__main__.py: Callbacks has what it gives to the session, Defs the rest; Kept,
--               Started and CleanUp have the proofs
--   WebApp      client/web/app.py and client/web/routes_live_feed.py, with the registrations of the other
--               routes; Safe has the proofs
--   Server      Handler is `handle_connection`, Model is server/model.py, Replies has the proofs
--   Link        client and server on one connection, with `_serve` of server/__main__.py; RoundTrip has
--               the proof
--   Tests       the theorems at concrete inputs
--
-- State and operations: an object is a record, and a method is a function from the record, with its
-- arguments, to the record. A method that may raise returns a `Result` with the state at that point, so
-- that a write that fails after memory was changed shows the change. Exceptions are the constructors of
-- `Exception`, `other_error` for the subclasses that the code does not tell apart. Threads and tasks
-- meet at locks and awaits, so a run is a sequence of whole method calls or loop rounds; where a route
-- calls the store twice, requests of other threads stand between the calls.
--
-- Parameters: floats and their operations, `cv2.pointPolygonTest`, the frame codec and the drawing of
-- cv2, pydantic's JSON and its conversion of raw values to the types of the fields, tomllib, tomlkit, the
-- neural network, what each call of GPIO, of the disk, of SQLite and of the network ends with, and the
-- formats of times and labels. Clocks are readings in natural ticks, and durations are in the same ticks.
-- Integers are Python's, without bounds. The loops are structural on the list they consume: a session
-- that goes on for ever is its runs for every list of attempts and turns. The stream is structural on its
-- `max_frames`; a stream without a maximum is its runs for every maximum.
--
-- Not modelled: logging, the matching of paths and the templates of Flask, the installation of the signal
-- handlers (a signal is a call of `stop` at any turn), and the `main` of the server with its socket. An alert
-- finds the answers of its environment in the world, the same ones for all alerts of a run. A request of the
-- web server stands between two turns of a connection; nothing that `run` reads is changed by one.
pub mod Prelude
pub mod Zone
pub mod Debounce
pub mod Geometry
pub mod Alerts
pub mod Annotation
pub mod ZoneStore
pub mod Dashboard
pub mod Link
pub mod Client
pub mod Transport
pub mod Deterrent
pub mod Protocol
pub mod Server
pub mod Snapshot
pub mod Routes
pub mod Config
pub mod Settings
pub mod Stats
pub mod Stream
pub mod Status
pub mod Tests
pub mod Camera
pub mod Connection
pub mod Main
pub mod WebApp
