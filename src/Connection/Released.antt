-- ===== src/Connection/Released.antt =====
-- The calls of the camera's device over a whole run of the session.
use counter_cruiser.Prelude.{
  ℕ, Bool, true, false, Option, none, some, List, [], ◌∷◌, ◌++◌, ◌≡◌, ◌≢◌, refl, subst, sym, ap,
  ◌∙◌, ℤ, arith, Result, ok, err, Exception, if◌then◌else◌,
}
use counter_cruiser.Camera.{Opening, Reading, open_capture, read, release}
use counter_cruiser.Camera.Held.{
  Use, used, Sound, used-Sound, holds, holds-release, holds-open_capture, held_after, Legal,
}
use counter_cruiser.Transport.{send_round}
use counter_cruiser.Connection.Defs.{
  Turn, sender_goes, sender_awaited, message, messages_end, signal, requested, Sender, Connection,
  Receiving, begin, goes, sends, if_at_head, take_turn, take_turns, run_connection,
}
use counter_cruiser.Connection.Run.{
  Attempt, refused, made, Life, CameraConfig, Progress, open_still, again, over, after_turns, tell,
  recover, left_with, connected, attempt, go_on, run_loop, finally_release, opened, with_size, run,
}

-- A device stays open after `run` only where it was opened and did not tell its size.
abbrev pub left_open : Result (ℤ × ℤ) → Opening → Bool
left_open (ok size) answer = false
left_open (err e) answer = answer.is_opened

module _ {Frame Message Client : Type 0} where
  abbrev SoundConnection : Connection Frame Message Client → Type 0
  SoundConnection c = Sound c.camera c.device_calls

  sends-Sound :
      (r : Result (Option Message)) (c : Connection Frame Message Client)
      → SoundConnection c
      → SoundConnection (sends r c)
  sends-Sound (err e) c h = h
  sends-Sound (ok none) c h = h
  sends-Sound (ok (some m)) c h = h

  goes-Sound :
      (encode : Frame → ℕ → Result Message) (answer : Reading Frame) (now : ℕ)
      (c : Connection Frame Message Client)
      → SoundConnection c
      → SoundConnection (goes encode answer now c)
  unfolding goes used
  goes-Sound encode answer now c h =
      let (result, count, session) =
        send_round encode (read answer c.camera).0 now c.count c.session in
      let c1 : Connection Frame Message Client = record c {
        device_calls = c.device_calls ++ (read answer c.camera).1;
        count = count;
        session = session;
      } in
      let sound : SoundConnection (sends result c1) =
        sends-Sound result c1 (used-Sound (Use.reads answer) c.camera c.device_calls h) in
      ground (arith, sound, h)

  if_at_head-Sound :
      (x : Sender) (c1 c : Connection Frame Message Client)
      → SoundConnection c1
      → SoundConnection c
      → SoundConnection (if_at_head x c1 c)
  if_at_head-Sound Sender.at_head c1 c h1 h = h1
  if_at_head-Sound Sender.sending c1 c h1 h = h
  if_at_head-Sound Sender.closing c1 c h1 h = h
  if_at_head-Sound Sender.sender_over c1 c h1 h = h

module _ {Frame Client : Type 0} where
  abbrev SoundLife : Life Frame Client → Type 0
  SoundLife y = Sound y.camera y.device_calls

  go_on-Sound :
      (b : Bool) (rest : Life Frame Client → Option (Result (Unit {0})) × Life Frame Client)
      (r : Progress × Life Frame Client) (y : Life Frame Client)
      → ((y' : Life Frame Client) → SoundLife y' → SoundLife (rest y').1)
      → SoundLife r.1
      → SoundLife y
      → SoundLife (if b then go_on rest r else (some (ok tt), y)).1
  go_on-Sound false rest r y more h1 h = h
  go_on-Sound true rest (open_still, y') y more h1 h = h1
  go_on-Sound true rest (again, y') y more h1 h = more y' h1
  go_on-Sound true rest (over result, y') y more h1 h = h1

  -- The `finally` clause leaves no device open.
  finally_release-Sound :
      (r : Option (Result (Unit {0})) × Life Frame Client)
      → SoundLife r.1
      → Legal false (finally_release r).1.device_calls
        × (r.0 ≢ none → held_after false (finally_release r).1.device_calls ≡ false)
  unfolding release used
  finally_release-Sound (none, y) h = (h.0, λ e. absurd (e refl))
  finally_release-Sound (some result, y) h =
      let sound = used-Sound {Frame = Frame} Use.releases y.camera y.device_calls h in
      (sound.0, λ e. sound.1 ∙ holds-release y.camera)

module _ {Frame Now Raw Request Message Client : Type 0} (encode : Frame → ℕ → Result Message)
    (receiving_body : Receiving Frame Now Raw Request Client) where
  take_turn-Sound :
      (t : Turn Frame Now Raw Request) (c : Connection Frame Message Client)
      → SoundConnection c
      → SoundConnection (take_turn encode receiving_body t c)
  unfolding take_turn
  take_turn-Sound (sender_goes answer now) c h =
      if_at_head-Sound c.sender (goes encode answer now c) c (goes-Sound encode answer now c h) h
  take_turn-Sound (sender_awaited r) c h = ground (arith, h)
  take_turn-Sound (message now raw) c h = ground (arith, h)
  take_turn-Sound (messages_end r) c h = ground (arith, h)
  take_turn-Sound signal c h = h
  take_turn-Sound (requested q) c h = h

  take_turns-Sound :
      (ts : List (Turn Frame Now Raw Request)) (c : Connection Frame Message Client)
      → SoundConnection c
      → SoundConnection (take_turns encode receiving_body ts c)
  unfolding take_turns
  take_turns-Sound [] c h = h
  take_turns-Sound (t ∷ ts) c h =
      take_turns-Sound ts (take_turn encode receiving_body t c) (take_turn-Sound t c h)

module _ {Frame Now Raw Request Message Client : Type 0} (encode : Frame → ℕ → Result Message)
    (receiving_at : ℤ → Receiving Frame Now Raw Request Client)
    (on_connection_change : Bool → Client → Client) where
  recover-Sound :
      (e : Exception) (a b : Bool) (y : Life Frame Client)
      → SoundLife y
      → SoundLife (recover encode receiving_at on_connection_change e a b y).1
  recover-Sound e a b y h = ground (arith, h)

  left_with-Sound :
      (ended : Option (Result (Unit {0}))) (closing : Result (Unit {0})) (a b : Bool)
      (y : Life Frame Client)
      → SoundLife y
      → SoundLife (left_with encode receiving_at on_connection_change ended closing a b y).1
  left_with-Sound none closing a b y h = h
  left_with-Sound (some body) (err e) a b y h = recover-Sound e a b y h
  left_with-Sound (some (err e)) (ok u) a b y h = recover-Sound e a b y h
  left_with-Sound (some (ok v)) (ok u) a b y h = ground (arith, h)

  attempt-Sound :
      (x : Attempt Frame Now Raw Request) (y : Life Frame Client)
      → SoundLife y
      → SoundLife (attempt encode receiving_at on_connection_change x y).1
  unfolding attempt run_connection begin
  attempt-Sound (refused e a b) y h = recover-Sound e a b y h
  attempt-Sound (made ts closing a b) y h =
      let y' = tell encode receiving_at on_connection_change true y in
      let c = connected encode receiving_at on_connection_change ts y in
      left_with-Sound c.0 closing a b (after_turns c.1 y') (
        take_turns-Sound encode (receiving_at y'.frame_height) ts
          (begin y'.camera y'.device_calls y'.session y'.client) h)

  run_loop-Sound :
      (xs : List (Attempt Frame Now Raw Request)) (y : Life Frame Client)
      → SoundLife y
      → SoundLife (run_loop encode receiving_at on_connection_change xs y).1
  unfolding run_loop
  run_loop-Sound [] y h = h
  run_loop-Sound (x ∷ xs) y h =
      go_on-Sound y.session.running (run_loop encode receiving_at on_connection_change xs)
        (attempt encode receiving_at on_connection_change x y) y (λ y' h'. run_loop-Sound xs y' h')
        (attempt-Sound x y h) h

  with_size-Sound :
      (size : Result (ℤ × ℤ)) (answer : Opening) (xs : List (Attempt Frame Now Raw Request))
      (y : Life Frame Client)
      → SoundLife y
      → holds y.camera.cap ≡ answer.is_opened
      → let r = with_size encode receiving_at on_connection_change size xs y in
        Legal false r.1.device_calls
        × (r.0 ≢ none → held_after false r.1.device_calls ≡ left_open size answer)
  with_size-Sound (err e) answer xs y h is = (h.0, λ e. h.1 ∙ is)
  with_size-Sound (ok (width, height)) answer xs y h is =
      let loop =
        run_loop encode receiving_at on_connection_change xs (record y { frame_height = height }) in
      let (legal, shut) =
        finally_release-Sound loop (run_loop-Sound xs (record y { frame_height = height }) h) in
      (legal, λ e. shut (λ none_yet. e (ap (λ r. (finally_release (r, loop.1)).0) none_yet)))

  -- Over a run of the session with a new capture, each size, frame and release is asked of a device that
  -- was opened and not yet released. When the run has ended, the device is released, unless it was
  -- opened and reading its size raised: that happens before the `try`.
  pub run-Released :
      (config : CameraConfig) (answer : Opening) (xs : List (Attempt Frame Now Raw Request))
      (y : Life Frame Client)
      → y.camera.cap ≡ none
      → y.device_calls ≡ []
      → let size =
          (open_capture answer config.camera_index config.frame_width config.frame_height
            y.camera).0 in
        let r = run encode receiving_at on_connection_change config answer xs y in
        Legal false r.1.device_calls
        × (r.0 ≢ none → held_after false r.1.device_calls ≡ left_open size answer)
  unfolding run used open_capture
  run-Released config answer xs y shut fresh =
      let opening =
        open_capture answer config.camera_index config.frame_width config.frame_height y.camera in
      let nothing : Sound y.camera y.device_calls =
        subst (λ calls. Sound y.camera calls) (sym fresh) (tt, sym (ap holds shut)) in
      let sound =
        used-Sound {Frame = Frame}
          (Use.opens answer config.camera_index config.frame_width config.frame_height) y.camera
          y.device_calls nothing in
      with_size-Sound opening.0 answer xs (opened opening y) sound (
        holds-open_capture answer config.camera_index config.frame_width config.frame_height
          y.camera shut)
