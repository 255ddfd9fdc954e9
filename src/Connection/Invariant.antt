-- ===== src/Connection/Invariant.antt =====
-- What holds of the client over a whole run, if the callbacks and the requests keep it.
use counter_cruiser.Prelude.{
  ℕ, Bool, true, false, Option, none, some, List, [], ◌∷◌, ◌++◌, ℤ, arith, Result, ok, err,
  Exception, if◌then◌else◌,
}
use counter_cruiser.Camera.{Reading, Opening, read, open_capture}
use counter_cruiser.Transport.{Session, send_round}
use counter_cruiser.Connection.Defs.{
  Turn, sender_goes, sender_awaited, message, messages_end, signal, requested, Sender, Receiver,
  Connection, Receiving, begin, goes, sends, if_at_head, if_receiving, on_received, take_turn,
  take_turns, run_connection,
}
use counter_cruiser.Connection.Run.{
  Attempt, refused, made, Life, CameraConfig, Progress, open_still, again, over, after_turns, tell,
  recover, left_with, connected, attempt, go_on, run_loop, finally_release, opened, with_size, run,
}

module _ {Frame Message Client : Type 0} (P : Client → Type 0) where
  sends-keeps :
      (r : Result (Option Message)) (c : Connection Frame Message Client)
      → P c.client
      → P (sends r c).client
  sends-keeps (err e) c h = h
  sends-keeps (ok none) c h = h
  sends-keeps (ok (some m)) c h = h

  goes-keeps :
      (encode : Frame → ℕ → Result Message) (answer : Reading Frame) (now : ℕ)
      (c : Connection Frame Message Client)
      → P c.client
      → P (goes encode answer now c).client
  unfolding goes
  goes-keeps encode answer now c h =
      let (result, count, session) =
        send_round encode (read answer c.camera).0 now c.count c.session in
      let c1 : Connection Frame Message Client = record c {
        device_calls = c.device_calls ++ (read answer c.camera).1;
        count = count;
        session = session;
      } in
      let kept : P (sends result c1).client = sends-keeps result c1 h in ground (arith, kept, h)

  if_at_head-keeps :
      (x : Sender) (c1 c : Connection Frame Message Client)
      → P c1.client
      → P c.client
      → P (if_at_head x c1 c).client
  if_at_head-keeps Sender.at_head c1 c h1 h = h1
  if_at_head-keeps Sender.sending c1 c h1 h = h
  if_at_head-keeps Sender.closing c1 c h1 h = h
  if_at_head-keeps Sender.sender_over c1 c h1 h = h

  on_received-keeps :
      (r : Receiver) (o : Result (Unit {0}) × Session Frame × Client)
      (c : Connection Frame Message Client)
      → P o.2
      → P c.client
      → P (if_receiving r (on_received o c) c).client
  on_received-keeps Receiver.receiver_over o c h1 h = h
  on_received-keeps Receiver.receiving (ok u, s, client) c h1 h = h1
  on_received-keeps Receiver.receiving (err e, s, client) c h1 h = h1

module _ {Frame Client : Type 0} (P : Client → Type 0) where
  go_on-keeps :
      (b : Bool) (rest : Life Frame Client → Option (Result (Unit {0})) × Life Frame Client)
      (r : Progress × Life Frame Client) (y : Life Frame Client)
      → ((y' : Life Frame Client) → P y'.client → P (rest y').1.client)
      → P r.1.client
      → P y.client
      → P (if b then go_on rest r else (some (ok tt), y)).1.client
  go_on-keeps false rest r y more h1 h = h
  go_on-keeps true rest (open_still, y') y more h1 h = h1
  go_on-keeps true rest (again, y') y more h1 h = more y' h1
  go_on-keeps true rest (over result, y') y more h1 h = h1

  finally_release-keeps :
      (r : Option (Result (Unit {0})) × Life Frame Client)
      → P r.1.client
      → P (finally_release r).1.client
  finally_release-keeps (none, y) h = h
  finally_release-keeps (some result, y) h = h

-- The callbacks and the requests keep `P`.
pub record Keeps {Frame Now Raw Request Client : Type 0} (P : Client → Type 0)
    (receiving_at : ℤ → Receiving Frame Now Raw Request Client)
    (on_connection_change : Bool → Client → Client) : Type 0 where
  pub keeps_body :
      (height : ℤ) (now : Now) (raw : Raw) (s : Session Frame) (c : Client)
      → P c
      → P ((receiving_at height).body now raw s c).2
  pub keeps_handle :
      (height : ℤ) (q : Request) (c : Client) → P c → P ((receiving_at height).handle q c)
  pub keeps_change : (connected : Bool) (c : Client) → P c → P (on_connection_change connected c)

module _ {Frame Now Raw Request Message Client : Type 0} (encode : Frame → ℕ → Result Message)
    (receiving_at : ℤ → Receiving Frame Now Raw Request Client)
    (on_connection_change : Bool → Client → Client) (P : Client → Type 0)
    (keeps : Keeps P receiving_at on_connection_change) where
  open keeps use {keeps_body, keeps_handle, keeps_change}

  take_turn-keeps :
      (height : ℤ) (t : Turn Frame Now Raw Request) (c : Connection Frame Message Client)
      → P c.client
      → P (take_turn encode (receiving_at height) t c).client
  unfolding take_turn
  take_turn-keeps height (sender_goes answer now) c h =
      if_at_head-keeps P c.sender (goes encode answer now c) c (goes-keeps P encode answer now c h)
        h
  take_turn-keeps height (sender_awaited r) c h = ground (arith, h)
  take_turn-keeps height (message now raw) c h =
      on_received-keeps P c.receiver ((receiving_at height).body now raw c.session c.client) c
        (keeps_body height now raw c.session c.client h) h
  take_turn-keeps height (messages_end r) c h = ground (arith, h)
  take_turn-keeps height signal c h = h
  take_turn-keeps height (requested q) c h = keeps_handle height q c.client h

  pub take_turns-keeps :
      (height : ℤ) (ts : List (Turn Frame Now Raw Request)) (c : Connection Frame Message Client)
      → P c.client
      → P (take_turns encode (receiving_at height) ts c).client
  unfolding take_turns
  take_turns-keeps height [] c h = h
  take_turns-keeps height (t ∷ ts) c h =
      take_turns-keeps height ts (take_turn encode (receiving_at height) t c)
        (take_turn-keeps height t c h)

  recover-keeps :
      (e : Exception) (a b : Bool) (y : Life Frame Client)
      → P y.client
      → P (recover encode receiving_at on_connection_change e a b y).1.client
  recover-keeps e a b y h = ground (arith, h, keeps_change false y.client h)

  left_with-keeps :
      (ended : Option (Result (Unit {0}))) (closing : Result (Unit {0})) (a b : Bool)
      (y : Life Frame Client)
      → P y.client
      → P (left_with encode receiving_at on_connection_change ended closing a b y).1.client
  left_with-keeps none closing a b y h = h
  left_with-keeps (some body) (err e) a b y h = recover-keeps e a b y h
  left_with-keeps (some (err e)) (ok u) a b y h = recover-keeps e a b y h
  left_with-keeps (some (ok v)) (ok u) a b y h = ground (arith, h)

  attempt-keeps :
      (x : Attempt Frame Now Raw Request) (y : Life Frame Client)
      → P y.client
      → P (attempt encode receiving_at on_connection_change x y).1.client
  unfolding attempt run_connection begin
  attempt-keeps (refused e a b) y h = recover-keeps e a b y h
  attempt-keeps (made ts closing a b) y h =
      let y' = tell encode receiving_at on_connection_change true y in
      let c = connected encode receiving_at on_connection_change ts y in
      left_with-keeps c.0 closing a b (after_turns c.1 y') (
        take_turns-keeps y'.frame_height ts (begin y'.camera y'.device_calls y'.session y'.client)
          (keeps_change true y.client h))

  run_loop-keeps :
      (xs : List (Attempt Frame Now Raw Request)) (y : Life Frame Client)
      → P y.client
      → P (run_loop encode receiving_at on_connection_change xs y).1.client
  unfolding run_loop
  run_loop-keeps [] y h = h
  run_loop-keeps (x ∷ xs) y h =
      go_on-keeps P y.session.running (run_loop encode receiving_at on_connection_change xs)
        (attempt encode receiving_at on_connection_change x y) y (λ y' h'. run_loop-keeps xs y' h')
        (attempt-keeps x y h) h

  with_size-keeps :
      (size : Result (ℤ × ℤ)) (xs : List (Attempt Frame Now Raw Request)) (y : Life Frame Client)
      → P y.client
      → P (with_size encode receiving_at on_connection_change size xs y).1.client
  with_size-keeps (err e) xs y h = h
  with_size-keeps (ok (width, height)) xs y h =
      finally_release-keeps P
        (run_loop encode receiving_at on_connection_change xs (record y { frame_height = height }))
        (run_loop-keeps xs (record y { frame_height = height }) h)

  -- What holds of the client before a run of the session, and is kept by its callbacks and by the
  -- requests, holds after any of its moments, however the attempts go.
  pub run-keeps :
      (config : CameraConfig) (answer : Opening) (xs : List (Attempt Frame Now Raw Request))
      (y : Life Frame Client)
      → P y.client
      → P (run encode receiving_at on_connection_change config answer xs y).1.client
  unfolding run
  run-keeps config answer xs y h =
      let opening =
        open_capture answer config.camera_index config.frame_width config.frame_height y.camera in
      with_size-keeps opening.0 xs (opened opening y) h
