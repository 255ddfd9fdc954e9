-- ===== src/Transport/Latency.antt =====
-- The latency that the receive loop reports, by the history of the session.
use counter_cruiser.Prelude.{
  ℕ, ◌+◌, ◌-◌, ◌==◌, ◌%◌, ◌≡◌, refl, ap, ◌∙◌, Bool-cases, inl, inr, Option, none, some, List, [],
  ◌∷◌, arith, Result, ok, err, if◌then◌else◌,
}
use counter_cruiser.Transport.Defs.{
  Dict, get, put, delete, Session, init, sent, retain, note_sent, send_round, receive, connect,
  stop,
}
use counter_cruiser.Transport.Buffer.{Live, Step, round, detection, reconnect, halt, step, steps}

module _ {ℓ} {V : Type ℓ} where
  -- No key stands twice.
  abbrev Unique : Dict V → Type ℓ
  Unique [] = Unit
  Unique ((j, w) ∷ d) = (get j d ≡ none) × Unique d

  get-put :
      (k j : ℕ) (v : V) (d : Dict V) → get k (put j v d) ≡ (if j == k then some v else get k d)
  get-put k j v [] = refl
  get-put k j v ((i, w) ∷ d) = ground (arith, get-put k j v d)

  get-delete :
      (k j : ℕ) (d : Dict V) → Unique d → get k (delete j d) ≡ (if j == k then none else get k d)
  get-delete k j [] u = ground arith
  get-delete k j ((i, w) ∷ d) u = ground (arith, get-delete k j d u.1, u.0)

  put-Unique : (j : ℕ) (v : V) (d : Dict V) → Unique d → Unique (put j v d)
  put-Unique j v [] u = (refl, tt)
  put-Unique j v ((i, w) ∷ d) u = ground (arith, put-Unique j v d u.1, u.0, get-put i j v d)

  delete-Unique : (j : ℕ) (d : Dict V) → Unique d → Unique (delete j d)
  delete-Unique j [] u = tt
  delete-Unique j ((i, w) ∷ d) u = ground (arith, delete-Unique j d u.1, u.0, get-delete i j d u.1)

-- What happened to the frames of a session, the newest first: a frame was handed to the socket at a
-- time, a detection for an id came, or a connection began.
pub data Note : Type 0 where
  handed : ℕ → ℕ → Note
  answered : ℕ → Note
  began : Note

-- When a frame was last sent on this connection, if no detection for it came since.
abbrev pub sent_at : ℕ → List Note → Option ℕ
sent_at id [] = none
sent_at id (handed j now ∷ ns) = if j == id then some now else sent_at id ns
sent_at id (answered j ∷ ns) = if j == id then none else sent_at id ns
sent_at id (began ∷ ns) = none

abbrev pub since : ℕ → Option ℕ → ℕ
since now none = 0
since now (some before) = now - before

module _ {Frame Message : Type 0} (encode : Frame → ℕ → Result Message) where
  abbrev note_of : Result (Option Message) → ℕ → ℕ → List Note → List Note
  note_of (ok (some m)) id now ns = handed id now ∷ ns
  note_of (ok none) id now ns = ns
  note_of (err e) id now ns = ns

  abbrev pub noted : Step Frame → Live Frame → List Note → List Note
  noted (round frame now) l ns =
      let (result, count, session) = send_round encode frame now l.count l.session in
      note_of result session.frame_id now ns
  noted (detection frame_id now) l ns = answered frame_id ∷ ns
  noted reconnect l ns = began ∷ ns
  noted halt l ns = ns

  -- The notes of the steps, after those before.
  unfoldable pub notes : List (Step Frame) → Live Frame → List Note → List Note
  notes [] l ns = ns
  notes (x ∷ xs) l ns = notes xs (step encode x l) (noted x l ns)

  -- The pending frames are those that the notes tell.
  record Tells (ns : List Note) (s : Session Frame) : Type 0 where
    unique : Unique s.pending
    told : (id : ℕ) → get id s.pending ≡ sent_at id ns

  note_sent-Tells :
      (message : Result Message) (now : ℕ) (ns : List Note) (s : Session Frame)
      → Tells ns s
      → Tells
          (note_of (sent message) (note_sent message now s).frame_id now ns)
          (note_sent message now s)
  note_sent-Tells (err e) now ns s t = t
  note_sent-Tells (ok m) now ns s t = record {
    unique = put-Unique s.frame_id now s.pending t.unique;
    told = λ id.
        get-put id s.frame_id now s.pending
        ∙ ap (λ o. if s.frame_id == id then some now else o) (t.told id);
  }

  round-Tells :
      (frame : Option Frame) (now count : ℕ) (ns : List Note) (s : Session Frame)
      → Tells ns s
      → let r = send_round encode frame now count s in Tells (note_of r.0 r.2.frame_id now ns) r.2
  unfolding send_round retain
  round-Tells none now count ns s t = t
  round-Tells (some frame) now count ns s t = elim (Bool-cases ((count + 1) % s.frame_skip == 0)) [
    | inl due ↦
        let kept : Tells ns (retain frame s) = record { unique = t.unique; told = t.told } in
        rw due (note_sent-Tells (encode frame (s.frame_id + 1)) now ns (retain frame s) kept)
    | inr skipped ↦ rw skipped t
  ]

  step-Tells :
      (x : Step Frame) (l : Live Frame) (ns : List Note)
      → Tells ns l.session
      → Tells (noted x l ns) (step encode x l).session
  unfolding step receive connect stop
  step-Tells (round frame now) l ns t = round-Tells frame now l.count ns l.session t
  step-Tells (detection frame_id now) l ns t = record {
    unique = delete-Unique frame_id l.session.pending t.unique;
    told = λ id.
        get-delete id frame_id l.session.pending t.unique
        ∙ ap (λ o. if frame_id == id then none else o) (t.told id);
  }
  step-Tells reconnect l ns t = record { unique = tt; told = λ id. refl }
  step-Tells halt l ns t = record { unique = t.unique; told = t.told }

  steps-Tells :
      (xs : List (Step Frame)) (l : Live Frame) (ns : List Note)
      → Tells ns l.session
      → Tells (notes xs l ns) (steps encode xs l).session
  unfolding steps notes
  steps-Tells [] l ns t = t
  steps-Tells (x ∷ xs) l ns t =
      steps-Tells xs (step encode x l) (noted x l ns) (step-Tells x l ns t)

  -- After any interleaving of the two loops, reconnects and `stop`, a detection has as its latency the time
  -- since the frame of its id was sent, if that was on this connection and no other detection for the id
  -- came since; and 0 otherwise.
  pub receive_lem :
      (capacity skip : ℕ) (xs : List (Step Frame)) (id now : ℕ)
      → let start : Live Frame = record { count = 0; session = init capacity skip; past = [] } in
        (receive id now (steps encode xs start).session).0
        ≡ since now (sent_at id (notes xs start []))
  unfolding receive init
  receive_lem capacity skip xs id now =
      let start : Live Frame = record { count = 0; session = init capacity skip; past = [] } in
      let t = steps-Tells xs start [] (record { unique = tt; told = λ i. refl }) in
      ap (since now) (t.told id)
