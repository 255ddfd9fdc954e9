-- ===== src/Connection/Defs.antt =====
-- `_run_connection` with `_send_loop` and `_receive_loop`. asyncio runs one task at a time, up to its next
-- `await`: which task goes on, and how its `await` ends, is a list of turns. The body of the receive
-- loop is a parameter, since it calls back into the client.
use counter_cruiser.Prelude.{
  ℕ, ◌≡◌, Option, none, some, List, [], ◌∷◌, ◌++◌, Result, ok, err, Exception, if◌then◌else◌,
}
use counter_cruiser.Camera.{OpenCvCapture, DeviceCall, Reading, read}
use counter_cruiser.Transport.{Session, send_round, connect, stop}

-- The send loop goes on to its next `await`, or that `await` (of `send` or `close`) ends; a message
-- arrives, or there are no more; the signal handler calls `stop`; or the web server's thread handles a
-- request. A turn that its task cannot take
-- changes nothing.
pub data Turn (Frame Now Raw Request : Type 0) : Type 0 where
  sender_goes : Reading Frame → ℕ → Turn Frame Now Raw Request
  sender_awaited : Result (Unit {0}) → Turn Frame Now Raw Request
  message : Now → Raw → Turn Frame Now Raw Request
  messages_end : Result (Unit {0}) → Turn Frame Now Raw Request
  signal : Turn Frame Now Raw Request
  requested : Request → Turn Frame Now Raw Request

-- Where the send loop stands: at its head (or asleep after a failed read), in `await ws.send`, in
-- `await ws.close`, or it is over.
pub data Sender : Type 0 where
  at_head sending closing sender_over : Sender

pub data Receiver : Type 0 where
  receiving receiver_over : Receiver

-- `failed` is the first exception of a task, which `gather` raises; `wire` are the messages given to
-- `ws.send`, and `device_calls` the calls of the camera.
pub record Connection (Frame Message Client : Type 0) : Type 0 where
  pub camera : OpenCvCapture
  pub device_calls : List DeviceCall
  pub session : Session Frame
  pub client : Client
  pub count : ℕ
  pub wire : List Message
  pub sender : Sender
  pub receiver : Receiver
  pub failed : Option Exception

-- The body of the receive loop: how it ends, and what it does to the session and the client. Of the
-- session it changes the pending frames only. `handle` is what a request does to the client.
pub record Receiving (Frame Now Raw Request Client : Type 0) : Type 0 where
  pub body : Now → Raw → Session Frame → Client → Result (Unit {0}) × Session Frame × Client
  pub only_pending :
      (now : Now) (raw : Raw) (s : Session Frame) (c : Client)
      → let s' = (body now raw s c).1 in s' ≡ record s { pending = s'.pending }
  pub handle : Request → Client → Client

abbrev pub first : Option Exception → Exception → Option Exception
first none e = some e
first (some earlier) e = some earlier

-- How `gather` ends: not yet, with both results, or with the first exception, on which both tasks are
-- cancelled. A turn after the exception is one that the other task took before its cancellation.
abbrev pub gathered : Option Exception → Sender → Receiver → Option (Result (Unit {0}))
gathered (some e) s r = some (err e)
gathered none sender_over receiver_over = some (ok tt)
gathered none sender_over receiving = none
gathered none at_head r = none
gathered none sending r = none
gathered none closing r = none

module _ {Frame Message Client : Type 0} where
  -- The start of a connection, with both tasks created.
  unfoldable pub begin :
      OpenCvCapture → List DeviceCall → Session Frame → Client → Connection Frame Message Client
  unfolding connect
  begin camera device_calls session client = record {
    camera = camera;
    device_calls = device_calls;
    session = connect session;
    client = client;
    count = 0;
    wire = [];
    sender = at_head;
    receiver = receiving;
    failed = none;
  }

  abbrev pub sender_ends :
      Result (Unit {0}) → Connection Frame Message Client → Connection Frame Message Client
  sender_ends (ok u) c = record c { sender = sender_over }
  sender_ends (err e) c = record c { sender = sender_over; failed = first c.failed e }

  abbrev pub receiver_ends :
      Result (Unit {0}) → Connection Frame Message Client → Connection Frame Message Client
  receiver_ends (ok u) c = record c { receiver = receiver_over }
  receiver_ends (err e) c = record c { receiver = receiver_over; failed = first c.failed e }

  -- After a frame was taken, or skipped: the message goes out.
  abbrev pub sends :
      Result (Option Message) → Connection Frame Message Client → Connection Frame Message Client
  sends (err e) c = sender_ends (err e) c
  sends (ok none) c = c
  sends (ok (some m)) c = record c { wire = c.wire ++ m ∷ []; sender = sending }

  -- One round of the send loop.
  unfoldable pub goes :
      (Frame → ℕ → Result Message)
      → Reading Frame
      → ℕ
      → Connection Frame Message Client
      → Connection Frame Message Client
  goes encode answer now c =
      if c.session.running
      then (let (frame, calls) = read answer c.camera in
          let (result, count, session) = send_round encode frame now c.count c.session in
          sends result
            (record c { device_calls = c.device_calls ++ calls; count = count; session = session }))
      else record c { sender = closing }

  abbrev pub if_at_head :
      Sender
      → Connection Frame Message Client
      → Connection Frame Message Client
      → Connection Frame Message Client
  if_at_head at_head turned same = turned
  if_at_head sending turned same = same
  if_at_head closing turned same = same
  if_at_head sender_over turned same = same

  -- The `await` of the send loop ends.
  abbrev pub awaited :
      Sender → Result (Unit {0}) → Connection Frame Message Client → Connection Frame Message Client
  awaited sending (ok u) c = record c { sender = at_head }
  awaited sending (err e) c = sender_ends (err e) c
  awaited closing r c = sender_ends r c
  awaited at_head r c = c
  awaited sender_over r c = c

  -- One round of the receive loop, which goes on unless it raised.
  abbrev pub on_received :
      Result (Unit {0}) × Session Frame × Client
      → Connection Frame Message Client
      → Connection Frame Message Client
  on_received (ok u, session, client) c = record c { session = session; client = client }
  on_received (err e, session, client) c =
      receiver_ends (err e) (record c { session = session; client = client })

  abbrev pub if_receiving :
      Receiver
      → Connection Frame Message Client
      → Connection Frame Message Client
      → Connection Frame Message Client
  if_receiving receiving turned same = turned
  if_receiving receiver_over turned same = same

module _ {Frame Now Raw Request Message Client : Type 0} (encode : Frame → ℕ → Result Message)
    (receiving_body : Receiving Frame Now Raw Request Client) where
  open receiving_body use {body, handle}

  unfoldable pub take_turn :
      Turn Frame Now Raw Request → Connection Frame Message Client → Connection Frame Message Client
  unfolding goes
  take_turn (sender_goes answer now) c = if_at_head c.sender (goes encode answer now c) c
  take_turn (sender_awaited r) c = awaited c.sender r c
  take_turn (message now raw) c =
      if_receiving c.receiver (on_received (body now raw c.session c.client) c) c
  take_turn (messages_end r) c = if_receiving c.receiver (receiver_ends r c) c
  take_turn signal c = record c { session = stop c.session }
  take_turn (requested q) c = record c { client = handle q c.client }

  unfoldable pub take_turns :
      List (Turn Frame Now Raw Request)
      → Connection Frame Message Client
      → Connection Frame Message Client
  unfolding take_turn
  take_turns [] c = c
  take_turns (t ∷ ts) c = take_turns ts (take_turn t c)

  unfoldable pub run_connection :
      List (Turn Frame Now Raw Request)
      → Connection Frame Message Client
      → Option (Result (Unit {0})) × Connection Frame Message Client
  unfolding take_turns
  run_connection ts c = let c' = take_turns ts c in (gathered c'.failed c'.sender c'.receiver, c')
