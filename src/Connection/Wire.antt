-- ===== src/Connection/Wire.antt =====
-- What one connection sends, whatever the order of its turns.
use counter_cruiser.Prelude.{
  ℕ, suc, ◌+◌, ◌%◌, ◌≡◌, refl, sym, ap, ◌∙◌, true, false, Bool, Option, none, some, List, [], ◌∷◌,
  ◌++◌, append_assoc, append-nil, map, ◌==◌, arith, Bool-cases, inl, inr, if◌then◌else◌, Result, ok,
  err,
}
use counter_cruiser.Camera.{OpenCvCapture, DeviceCall, Reading, read}
use counter_cruiser.Transport.{Session, Dict, send_round, sent, retain, note_sent, connect, stop}
use counter_cruiser.Transport.Numbered.{numbered}
use counter_cruiser.Connection.Defs.{
  Turn, sender_goes, sender_awaited, message, messages_end, signal, requested, Sender, at_head,
  sending, closing, sender_over, Receiver, receiving, receiver_over, Connection, Receiving, begin,
  goes, sends, if_at_head, take_turn, take_turns, on_received, if_receiving,
}

-- Every `skip`-th of the frames, with `count` of them gone by.
abbrev pub every {ℓ} : {A : Type ℓ} → ℕ → ℕ → List A → List A
every skip count [] = []
every skip count (x ∷ xs) =
    let rest = every skip (count + 1) xs in if (count + 1) % skip == 0 then x ∷ rest else rest

-- The messages up to the first exception.
abbrev pub until_error {ℓ} : {M : Type ℓ} → List (Result M) → List M
until_error [] = []
until_error (err e ∷ rs) = []
until_error (ok m ∷ rs) = m ∷ until_error rs

abbrev frame_list {ℓ} : {A : Type ℓ} → Option A → List A
frame_list none = []
frame_list (some x) = x ∷ []

abbrev only_at_head {ℓ} : {A : Type ℓ} → Sender → List A → List A
only_at_head at_head xs = xs
only_at_head sending xs = []
only_at_head closing xs = []
only_at_head sender_over xs = []

module _ {Frame Now Raw Request Message Client : Type 0} (encode : Frame → ℕ → Result Message)
    (receiving_body : Receiving Frame Now Raw Request Client) where
  open receiving_body use {body, only_pending}

  -- The frames that the send loop reads.
  abbrev pub frame_read : Turn Frame Now Raw Request → Connection Frame Message Client → List Frame
  frame_read (sender_goes answer now) c =
      only_at_head c.sender (if c.session.running then frame_list (read answer c.camera).0 else [])
  frame_read (sender_awaited r) c = []
  frame_read (message now raw) c = []
  frame_read (messages_end r) c = []
  frame_read signal c = []
  frame_read (requested q) c = []

  unfoldable pub frames_read :
      List (Turn Frame Now Raw Request) → Connection Frame Message Client → List Frame
  frames_read [] c = []
  frames_read (t ∷ ts) c = frame_read t c ++ frames_read ts (take_turn encode receiving_body t c)

  -- Each frame is encoded under its id.
  abbrev pub encoded : Dict Frame → List (Result Message)
  encoded d = map (λ (id, frame). encode frame id) d

  -- What is sent of the frames, with the session's `frame_skip`, its `count`, and its last id.
  abbrev pub to_send : ℕ → ℕ → ℕ → List Frame → List Message
  to_send skip count frame_id frames =
      until_error (encoded (numbered (suc frame_id) (every skip count frames)))

  abbrev sent_first : Result (Option Message) → List Message → List Message
  sent_first (err e) rest = []
  sent_first (ok none) rest = rest
  sent_first (ok (some m)) rest = m ∷ rest

  noted-to_send :
      (message : Result Message) (now skip count : ℕ) (s : Session Frame) (rest : List Frame)
      → let s' = note_sent message now s in
        until_error (message ∷ encoded (numbered (suc s.frame_id) (every s.frame_skip count rest)))
        ≡ sent_first (sent message) (to_send s'.frame_skip count s'.frame_id rest)
  noted-to_send (err e) now skip count s rest = refl
  noted-to_send (ok m) now skip count s rest = refl

  send_round-to_send :
      (frame : Option Frame) (now count : ℕ) (s : Session Frame) (rest : List Frame)
      → let (result, count', s') = send_round encode frame now count s in
        to_send s.frame_skip count s.frame_id (frame_list frame ++ rest)
        ≡ sent_first result (to_send s'.frame_skip count' s'.frame_id rest)
  unfolding send_round retain
  send_round-to_send none now count s rest = refl
  send_round-to_send (some frame) now count s rest =
      elim (Bool-cases ((count + 1) % s.frame_skip == 0)) [
        | inl due ↦ rw due (
            let next : s.frame_id + 1 ≡ suc s.frame_id = omega arith in
            rw (sym next) (
              noted-to_send (encode frame (s.frame_id + 1)) now s.frame_skip (count + 1)
                (retain frame s) rest))
        | inr skipped ↦ rw skipped
      ]

  over-take_turn :
      (t : Turn Frame Now Raw Request) (c : Connection Frame Message Client)
      → c.sender ≡ sender_over
      → ((take_turn encode receiving_body t c).sender ≡ sender_over) × (frame_read t c ≡ [])
  unfolding take_turn
  over-take_turn (sender_goes answer now) c h = ground arith
  over-take_turn (sender_awaited r) c h = ground arith
  over-take_turn (message now raw) c h = ground arith
  over-take_turn (messages_end r) c h = ground arith
  over-take_turn signal c h = ground arith
  over-take_turn (requested q) c h = ground arith

  over-frames_read :
      (ts : List (Turn Frame Now Raw Request)) (c : Connection Frame Message Client)
      → c.sender ≡ sender_over
      → frames_read ts c ≡ []
  unfolding frames_read
  over-frames_read [] c h = refl
  over-frames_read (t ∷ ts) c h =
      let (over, unread) = over-take_turn t c h in
      rw unread (over-frames_read ts (take_turn encode receiving_body t c) over)

  sends-wire :
      (result : Result (Option Message)) (c : Connection Frame Message Client) (rest : List Frame)
      → ((sends result c).sender ≡ sender_over → rest ≡ [])
      → c.wire ++ sent_first result (to_send c.session.frame_skip c.count c.session.frame_id rest)
        ≡ (let c' = sends result c in
            c'.wire ++ to_send c'.session.frame_skip c'.count c'.session.frame_id rest)
  sends-wire (err e) c rest h = rw (h refl)
  sends-wire (ok none) c rest h = refl
  sends-wire (ok (some m)) c rest h =
      sym (
        append_assoc c.wire (m ∷ []) (to_send c.session.frame_skip c.count c.session.frame_id rest))

  -- A connection sends on as `c'` what it would have sent of the frames and the rest.
  abbrev GoesOn :
      Connection Frame Message Client
      → List Frame
      → List Frame
      → Connection Frame Message Client
      → Type 0
  GoesOn c frames rest c' =
      (c'.sender ≡ sender_over → rest ≡ [])
      → c.wire ++ to_send c.session.frame_skip c.count c.session.frame_id (frames ++ rest)
        ≡ c'.wire ++ to_send c'.session.frame_skip c'.count c'.session.frame_id rest

  if-GoesOn :
      (b : Bool) (c c1 c2 : Connection Frame Message Client) (frames rest : List Frame)
      → GoesOn c frames rest c1
      → GoesOn c [] rest c2
      → GoesOn c (if b then frames else []) rest (if b then c1 else c2)
  if-GoesOn true c c1 c2 frames rest e1 e2 = e1
  if-GoesOn false c c1 c2 frames rest e1 e2 = e2

  goes-GoesOn :
      (answer : Reading Frame) (now : ℕ) (c : Connection Frame Message Client) (rest : List Frame)
      → GoesOn c
          (if c.session.running then frame_list (read answer c.camera).0 else [])
          rest
          (goes encode answer now c)
  unfolding goes
  goes-GoesOn answer now c rest =
      let r = send_round encode (read answer c.camera).0 now c.count c.session in
      let c1 : Connection Frame Message Client = record c {
        device_calls = c.device_calls ++ (read answer c.camera).1;
        count = r.1;
        session = r.2;
      } in
      if-GoesOn c.session.running c (sends r.0 c1) (record c { sender = closing })
        (frame_list (read answer c.camera).0) rest
        (λ h.
          ap (λ ms. c.wire ++ ms)
            (send_round-to_send (read answer c.camera).0 now c.count c.session rest)
          ∙ sends-wire r.0 c1 rest h)
        (λ h. refl)

  if_at_head-GoesOn :
      (x : Sender) (c c1 : Connection Frame Message Client) (frames rest : List Frame)
      → GoesOn c frames rest c1
      → GoesOn c (only_at_head x frames) rest (if_at_head x c1 c)
  if_at_head-GoesOn at_head c c1 frames rest e = e
  if_at_head-GoesOn sending c c1 frames rest e = λ h. refl
  if_at_head-GoesOn closing c c1 frames rest e = λ h. refl
  if_at_head-GoesOn sender_over c c1 frames rest e = λ h. refl

  on_received-GoesOn :
      (r : Receiver) (o : Result (Unit {0}) × Session Frame × Client)
      (c : Connection Frame Message Client) (rest : List Frame)
      → o.1.frame_skip ≡ c.session.frame_skip
      → o.1.frame_id ≡ c.session.frame_id
      → GoesOn c [] rest (if_receiving r (on_received o c) c)
  on_received-GoesOn receiver_over o c rest skip id = λ h. refl
  on_received-GoesOn receiving (ok u, s, client) c rest skip id = λ h. rw (skip, id)
  on_received-GoesOn receiving (err e, s, client) c rest skip id = λ h. rw (skip, id)

  -- One turn, where nothing more is read once the send loop is over.
  take_turn-GoesOn :
      (t : Turn Frame Now Raw Request) (c : Connection Frame Message Client) (rest : List Frame)
      → GoesOn c (frame_read t c) rest (take_turn encode receiving_body t c)
  unfolding take_turn stop
  take_turn-GoesOn (sender_goes answer now) c rest =
      if_at_head-GoesOn c.sender c (goes encode answer now c)
        (if c.session.running then frame_list (read answer c.camera).0 else []) rest
        (goes-GoesOn answer now c rest)
  take_turn-GoesOn (sender_awaited r) c rest = ground arith
  take_turn-GoesOn (message now raw) c rest =
      let kept = only_pending now raw c.session c.client in
      on_received-GoesOn c.receiver (body now raw c.session c.client) c rest
        (ap (λ s. s.frame_skip) kept) (ap (λ s. s.frame_id) kept)
  take_turn-GoesOn (messages_end r) c rest = ground arith
  take_turn-GoesOn signal c rest = λ h. refl
  take_turn-GoesOn (requested q) c rest = λ h. refl

  take_turns-wire :
      (ts : List (Turn Frame Now Raw Request)) (c : Connection Frame Message Client)
      → c.wire ++ to_send c.session.frame_skip c.count c.session.frame_id (frames_read ts c)
        ≡ (take_turns encode receiving_body ts c).wire
  unfolding frames_read take_turns
  take_turns-wire [] c = rw append-nil
  take_turns-wire (t ∷ ts) c =
      let c' = take_turn encode receiving_body t c in
      take_turn-GoesOn t c (frames_read ts c') (over-frames_read ts c') ∙ take_turns-wire ts c'

  -- Whatever the order in which the two tasks of a new connection go on, what is given to `ws.send` are
  -- the frames that the send loop has read from the camera, every `frame_skip`-th of them, encoded under
  -- the ids that follow the session's last id, in order, up to the first that cannot be encoded.
  pub begin-wire :
      (camera : OpenCvCapture) (calls : List DeviceCall) (s : Session Frame) (client : Client)
      (ts : List (Turn Frame Now Raw Request))
      → let c = begin camera calls s client in
        (take_turns encode receiving_body ts c).wire
        ≡ until_error
            (encoded (numbered (suc s.frame_id) (every s.frame_skip 0 (frames_read ts c))))
  unfolding begin connect
  begin-wire camera calls s client ts = sym (take_turns-wire ts (begin camera calls s client))
