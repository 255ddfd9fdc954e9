-- ===== src/Client/Merged.antt =====
-- The two loops of the session together with the callback, as any sequence of their rounds, beside the loops
-- alone.
use counter_cruiser.Prelude.{
  ℕ, ◌≡◌, refl, sym, ap, ◌∙◌, Option, List, [], ◌∷◌, ◌++◌, String, ℤ, pos, negsuc, Result, ok, err,
  Floats,
}
use counter_cruiser.Protocol.{AnyMessage, frame, detection, error, ping, pong}
use counter_cruiser.Transport
use counter_cruiser.Transport.{Session, send_round, receive, connect, stop}
use counter_cruiser.Transport.Buffer.{Live, Step, step, steps}
use counter_cruiser.ZoneStore.{Toml}
use counter_cruiser.Client.Receive.{
  Readings, Running, frame_at, take_pending, on_detection, on_message, receive_round,
}

-- A round of the send loop, a message received, a new connection, or `stop`.
pub data Event (Frame Time : Type 0) : Type 0 where
  sends : Option Frame → ℕ → Event Frame Time
  receives : Readings Time → String → Event Frame Time
  reconnects stops : Event Frame Time

module _ (T : Toml) (F : Floats) (point_polygon_test : List (ℤ × ℤ) → F.Float × F.Float → ℤ)
    (Frame Time W : Type 0) (copy : Frame → Frame) (min_size_ratio : F.Float) (Stamp : Type 0)
    (deserialize : String → Result (AnyMessage F.Float Stamp)) (frame_height : ℤ) (Message : Type 0)
    (encode : Frame → ℕ → Result Message) where
  -- The session, the client, and the `count` of the send loop.
  pub record System : Type 0 where
    pub count : ℕ
    pub running :
        Running T F point_polygon_test Frame Time W copy min_size_ratio Stamp deserialize
          frame_height

  unfoldable pub happens : Event Frame Time → System → System
  happens (sends read now) y =
      let (result, count, session) = send_round encode read now y.count y.running.session in
      record { count = count; running = record y.running { session = session } }
  happens (receives now raw) y = record y {
    running =
        (receive_round T F point_polygon_test Frame Time W copy min_size_ratio Stamp deserialize
          frame_height now raw y.running).1;
  }
  happens reconnects y = record {
    count = 0;
    running = record y.running { session = connect y.running.session };
  }
  happens stops y = record y { running = record y.running { session = stop y.running.session } }

  unfoldable pub all_happen : List (Event Frame Time) → System → System
  unfolding happens
  all_happen [] y = y
  all_happen (x ∷ xs) y = all_happen xs (happens x y)

  -- What a message does to the session alone.
  abbrev of_message : ℕ → Result (AnyMessage F.Float Stamp) → List (Step Frame)
  of_message now (err e) = []
  of_message now (ok (detection msg)) = elim msg.frame_id [
    | pos i ↦ Step.detection i now ∷ []
    | negsuc i ↦ []
  ]
  of_message now (ok (error msg)) = []
  of_message now (ok (frame msg)) = []
  of_message now (ok (ping msg)) = []
  of_message now (ok (pong msg)) = []

  abbrev of_event : Event Frame Time → List (Step Frame)
  of_event (sends read now) = Step.round read now ∷ []
  of_event (receives now raw) = of_message now.received_at (deserialize raw)
  of_event reconnects = Step.reconnect ∷ []
  of_event stops = Step.halt ∷ []

  abbrev pub of_events : List (Event Frame Time) → List (Step Frame)
  of_events [] = []
  of_events (x ∷ xs) = of_event x ++ of_events xs

  -- The session of the system is that of the loops alone.
  abbrev pub Agrees : System → Live Frame → Type 0
  Agrees y l = (y.count ≡ l.count) × (y.running.session ≡ l.session)

  steps-append :
      (xs ys : List (Step Frame)) (l : Live Frame)
      → steps encode (xs ++ ys) l ≡ steps encode ys (steps encode xs l)
  unfolding steps
  steps-append [] ys l = refl
  steps-append (x ∷ xs) ys l = steps-append xs ys (step encode x l)

  take_pending-step :
      (id : ℤ) (now : ℕ) (s : Session Frame) (l : Live Frame)
      → s ≡ l.session
      → (take_pending id now s).1
        ≡ (steps encode (elim id [ pos i ↦ Step.detection i now ∷ [] | negsuc i ↦ [] ]) l).session
  unfolding steps step
  take_pending-step (pos i) now s l h = ap (λ x. (receive i now x).1) h
  take_pending-step (negsuc i) now s l h = h

  count-of_message :
      (now : ℕ) (m : Result (AnyMessage F.Float Stamp)) (l : Live Frame)
      → (steps encode (of_message now m) l).count ≡ l.count
  unfolding steps step
  count-of_message now (err e) l = refl
  count-of_message now (ok (detection msg)) l = go msg.frame_id
    where
      go :
          (id : ℤ)
          → (steps encode (elim id [ pos i ↦ Step.detection i now ∷ [] | negsuc i ↦ [] ]) l).count
            ≡ l.count
      go (pos i) = refl
      go (negsuc i) = refl
  count-of_message now (ok (error msg)) l = refl
  count-of_message now (ok (frame msg)) l = refl
  count-of_message now (ok (ping msg)) l = refl
  count-of_message now (ok (pong msg)) l = refl

  on_message-step :
      (now : Readings Time) (m : Result (AnyMessage F.Float Stamp))
      (r : Running T F point_polygon_test Frame Time W copy min_size_ratio Stamp deserialize
        frame_height)
      (l : Live Frame)
      → r.session ≡ l.session
      → (on_message T F point_polygon_test Frame Time W copy min_size_ratio Stamp deserialize
          frame_height now m r).1.session
        ≡ (steps encode (of_message now.received_at m) l).session
  unfolding steps on_detection
  on_message-step now (err e) r l h = h
  on_message-step now (ok (detection msg)) r l h =
      take_pending-step msg.frame_id now.received_at r.session l h
  on_message-step now (ok (error msg)) r l h = h
  on_message-step now (ok (frame msg)) r l h = h
  on_message-step now (ok (ping msg)) r l h = h
  on_message-step now (ok (pong msg)) r l h = h

  happens-Agrees :
      (x : Event Frame Time) (y : System) (l : Live Frame)
      → Agrees y l
      → Agrees (happens x y) (steps encode (of_event x) l)
  unfolding happens steps step receive_round
  happens-Agrees (sends read now) y l h = (
    λ i. (send_round encode read now (h.0 i) (h.1 i)).1,
    λ i. (send_round encode read now (h.0 i) (h.1 i)).2,
  )
  happens-Agrees (receives now raw) y l h = (
    h.0 ∙ sym (count-of_message now.received_at (deserialize raw) l),
    on_message-step now (deserialize raw) y.running l h.1,
  )
  happens-Agrees reconnects y l h = (refl, ap connect h.1)
  happens-Agrees stops y l h = (h.0, ap stop h.1)

  pub all_happen-Agrees :
      (xs : List (Event Frame Time)) (y : System) (l : Live Frame)
      → Agrees y l
      → Agrees (all_happen xs y) (steps encode (of_events xs) l)
  unfolding all_happen steps
  all_happen-Agrees [] y l h = h
  all_happen-Agrees (x ∷ xs) y l h =
      rw (steps-append (of_event x) (of_events xs) l)
        (all_happen-Agrees xs (happens x y) (steps encode (of_event x) l) (happens-Agrees x y l h))

  pub frame_at-receive :
      (i id : ℤ) (now : ℕ) (s : Session Frame) → frame_at i (take_pending id now s).1 ≡ frame_at i s
  unfolding receive Transport.get_frame
  frame_at-receive (pos i) (pos j) now s = refl
  frame_at-receive (pos i) (negsuc j) now s = refl
  frame_at-receive (negsuc i) (pos j) now s = refl
  frame_at-receive (negsuc i) (negsuc j) now s = refl
