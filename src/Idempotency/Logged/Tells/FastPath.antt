-- ===== src/Idempotency/Logged/Tells/FastPath.antt =====
-- The lines of a replay and of the fast path.
use chekin_interview.Base.{
  String, Bool, true, false, ◌≡◌, refl, sym, ◌∙◌, ap, ◌⊎◌, inl, inr, Option, none, some, List, [],
  ◌∷◌, ◌++◌,
}
use chekin_interview.Models.{IdempotencyKey}
use chekin_interview.Schemas.{Codec}
use chekin_interview.Database.{Engine}
use chekin_interview.Database.Exec.{Result, ok, raise, Exec, pure, follow, ◌>>=◌, ◌>>◌}
use chekin_interview.Database.Rules.{Ends-bind, Ends-finally}
use chekin_interview.Logging.{Event}
use chekin_interview.Idempotency.{Outcome, replay}
use chekin_interview.Idempotency.Replay.{stored_response, replay-eq-ok}
use chekin_interview.Idempotency.Logged.{
  Noted, note, silent, replay_noted, replay_existing_noted, fast_path_noted, rolled_back,
  replayed_line,
}
use chekin_interview.Idempotency.Logged.Tells.{Told, Complains, Logs}

module _ (e : Engine) (c : Codec) (P : Outcome → Type 0) (key operation hash : String)
    (start : e.Session) where
  open e use {Session, get_key, rollback}

  abbrev pub Quiet : Result Outcome × Noted Session → Type 0
  Quiet r = Logs (Told e c P operation key start) (Complains operation key) r

  -- How a record was read.
  abbrev pub Read : Bool → IdempotencyKey → Type 0
  Read raced r =
      ((raced ≡ false) × ((get_key key start).0 ≡ ok (some r)))
      ⊎ ((raced ≡ true)
          × ((get_key key start).0 ≡ ok none)
          × (later : Session) × ((get_key key later).0 ≡ ok (some r)))

  pub replay_noted-Logs :
      (r : IdempotencyKey) (raced : Bool) (n : Noted Session)
      → Read raced r
      → n.events ≡ []
      → Quiet (replay_noted e c r operation hash raced n)
  unfolding replay_noted
  replay_noted-Logs r raced n read new =
      from (replay r operation hash) (replay-eq-ok r operation hash)
    where
      from :
          (v : Result Outcome)
          → ((o : Outcome)
              → v ≡ ok o
              → (r.operation ≡ operation) × (r.request_hash ≡ hash) × (o ≡ stored_response r))
          → Quiet (follow (λ o. note (replayed_line c r operation raced) >> pure o) (v, n))
      from (ok o) h = inr (record {
        stored = r;
        raced = raced;
        read = read;
        answer = (h o refl).2;
        line = ap (λ ls. ls ++ replayed_line c r operation raced ∷ []) new;
      })
      from (raise x) h = inl new

  -- What the fast path leaves: an answer with its line, or nothing.
  abbrev pub Early : Option Outcome → List Event → Type 0
  Early none lines = (lines ≡ []) × ((get_key key start).0 ≡ ok none)
  Early (some o) lines = Told e c P operation key start o lines

  replay_existing_noted-Logs :
      (r : Option IdempotencyKey) (n : Noted Session)
      → (get_key key start).0 ≡ ok r
      → n.events ≡ []
      → Logs Early (Complains operation key) (replay_existing_noted e c r operation hash n)
  unfolding replay_existing_noted
  replay_existing_noted-Logs none n read new = (new, read)
  replay_existing_noted-Logs (some r) n read new =
      Ends-bind (λ o m. Told e c P operation key start o m.events) (λ o m. Early o m.events)
        (λ x m. Complains operation key x m.events) (λ o. pure (some o))
        (replay_noted e c r operation hash false n)
        (replay_noted-Logs r false n (inl (refl, read)) new) (λ o m h. h)

  -- A read logs nothing.
  pub after_read :
      {A : Type 0} (Q : A → List Event → Type 0)
      (f : Option IdempotencyKey → Exec (Noted Session) A) (n : Noted Session)
      → n.events ≡ []
      → ((r : Option IdempotencyKey) (m : Noted Session)
          → (get_key key n.session).0 ≡ ok r
          → m.events ≡ []
          → Logs Q (Complains operation key) (f r m))
      → Logs Q (Complains operation key) ((silent (get_key key) >>= f) n)
  after_read Q f n new k = from (get_key key n.session) refl
    where
      from :
          (r : Result (Option IdempotencyKey) × Session)
          → (get_key key n.session).0 ≡ r.0
          → Logs Q (Complains operation key) (follow f (r.0, record n { session = r.1 }))
      from (ok r, s) at = k r (record n { session = s }) at new
      from (raise x, s) at = inl new

  pub fast_path_noted-Logs :
      (n : Noted Session)
      → n.session ≡ start
      → n.events ≡ []
      → Logs Early (Complains operation key) (fast_path_noted e c key operation hash n)
  unfolding fast_path_noted
  fast_path_noted-Logs n at new =
      Ends-finally (λ o m. Early o m.events) (λ o m. Early o m.events)
        (λ x m. Complains operation key x m.events) (λ x m. Complains operation key x m.events)
        (rolled_back e c)
        ((silent (get_key key) >>= λ r. replay_existing_noted e c r operation hash) n)
        (after_read Early (λ r. replay_existing_noted e c r operation hash) n new
          (λ r m read.
            replay_existing_noted-Logs r m (sym (ap (λ t. (get_key key t).0) at) ∙ read)))
        (λ o m h. h) (λ x m h. h)
