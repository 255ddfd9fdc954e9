-- ===== src/Stats/Reads.antt =====
-- What the readers give of what was recorded.
use counter_cruiser.Prelude.{
  ℕ, append-nil, append_assoc, ◌≡◌, ◌≤◌, refl, sym, ap, ◌∙◌, inl, inr, ◌⊎◌, Bool, true, false, not,
  none, some, List, [], ◌∷◌, ◌++◌, map, All, Exists, keep_if, take, length, length-take-le, String,
  str_le, str_le_total, str_le_trans, sorted_by, sorted_by-fixed, keep_if-IsSortedBy,
  Exists-sorted_by, All-take, take-IsSortedBy, take_complete, All-sorted_by, All-imp, IsSortedBy,
  sorted_by-IsSortedBy, keep_if-in, keep_if-out, Result, ok, err, Bool-cases,
}
use counter_cruiser.Dashboard.{DashboardState, get_deterrent_status}
use counter_cruiser.Stats.Defs.{
  Row, Database, rows, record_event, init_schema, earlier, newest_first, deterrent_stats,
  since_days, failure_limit,
}

-- One call of `record`, with what the database answers.
pub record Recording : Type 0 where
  pub answer : Result (Unit {0})
  pub now : String
  pub succeeded : Bool

abbrev pub record_all : List Recording → Database → Database
unfolding record_event
record_all [] db = db
record_all (r ∷ rs) db = record_all rs (record_event r.answer r.now r.succeeded db).1

abbrev pub committed_row : Result (Unit {0}) → Row → List Row
committed_row (ok u) row = row ∷ []
committed_row (err e) row = []

-- The rows of the calls that did not raise.
abbrev pub committed : List Recording → List Row
committed [] = []
committed (r ∷ rs) =
    committed_row r.answer (record { timestamp_utc = r.now; succeeded = r.succeeded })
    ++ committed rs

rows-record_event :
    (answer : Result (Unit {0})) (now : String) (succeeded : Bool) (db : Database)
    → rows (record_event answer now succeeded db).1
      ≡ rows db ++ committed_row answer (record { timestamp_utc = now; succeeded = succeeded })
unfolding record_event
rows-record_event (ok u) now succeeded db = refl
rows-record_event (err e) now succeeded db = sym (append-nil (rows db))

rows-record_all :
    (rs : List Recording) (db : Database) → rows (record_all rs db) ≡ rows db ++ committed rs
unfolding record_event
rows-record_all [] db = sym (append-nil (rows db))
rows-record_all (r ∷ rs) db =
    let row : Row = record { timestamp_utc = r.now; succeeded = r.succeeded } in
    rows-record_all rs (record_event r.answer r.now r.succeeded db).1
    ∙ ap (λ l. l ++ committed rs) (rows-record_event r.answer r.now r.succeeded db)
    ∙ append_assoc (rows db) (committed_row r.answer row) (committed rs)

-- The row is a failure at the time.
abbrev pub FailedAt : String → Row → Type 0
FailedAt t row = (row.timestamp_utc ≡ t) × (row.succeeded ≡ false)

-- The newest failures of a table, newest first: a failure that is not listed is no newer than any that
-- is, and the list is then full.
pub record NewestFailures (limit : ℕ) (table : List Row) (listed : List String) : Type 0 where
  pub sound : All (λ t. Exists (FailedAt t) table) listed
  pub at_most : length listed ≤ limit
  pub ordered : IsSortedBy newest_first listed
  pub complete :
      (t : String)
      → Exists (FailedAt t) table
      → Exists (λ y. y ≡ t) listed
        ⊎ ((length listed ≡ limit) × All (λ y. newest_first y t ≡ true) listed)

abbrev failure_times : List Row → List String
failure_times table = map (λ r. r.timestamp_utc) (keep_if (λ r. not r.succeeded) table)

failure_times_sound :
    (table : List Row) → All (λ t. Exists (FailedAt t) table) (failure_times table)
failure_times_sound [] = tt
failure_times_sound (row ∷ table) =
    let rest = All-imp (λ t e. inr e) (failure_times table) (failure_times_sound table) in
    elim (Bool-cases row.succeeded) [
      | inl ok_row ↦ rw (keep_if-out (λ r. not r.succeeded) row table (ap not ok_row)) rest
      | inr failed ↦
          rw (keep_if-in (λ r. not r.succeeded) row table (ap not failed))
            (inl (refl, failed), rest)
    ]

failure_times_complete :
    (t : String) (table : List Row)
    → Exists (FailedAt t) table
    → Exists (λ y. y ≡ t) (failure_times table)
failure_times_complete t [] e = absurd e
failure_times_complete t (row ∷ table) (inl (at, failed)) =
    rw (keep_if-in (λ r. not r.succeeded) row table (ap not failed)) (inl at)
failure_times_complete t (row ∷ table) (inr e) =
    let rest = failure_times_complete t table e in
    elim (Bool-cases row.succeeded) [
      | inl ok_row ↦ rw (keep_if-out (λ r. not r.succeeded) row table (ap not ok_row)) rest
      | inr failed ↦ rw (keep_if-in (λ r. not r.succeeded) row table (ap not failed)) (inr rest)
    ]

listed-NewestFailures :
    (limit : ℕ) (table : List Row)
    → NewestFailures limit table (take limit (sorted_by newest_first (failure_times table)))
listed-NewestFailures limit table =
    let times = failure_times table in
    let sorted =
      sorted_by-IsSortedBy newest_first (λ a b. str_le_total b a)
        (λ a b c h k. str_le_trans c b a k h) times in
    record {
      sound =
          All-take newest_first (λ t. Exists (FailedAt t) table) limit
            (sorted_by newest_first times)
            (All-sorted_by newest_first _ times (failure_times_sound table));
      at_most = length-take-le limit (sorted_by newest_first times);
      ordered = take-IsSortedBy newest_first limit (sorted_by newest_first times) sorted;
      complete = λ t e.
          take_complete newest_first limit t (sorted_by newest_first times) sorted
            (Exists-sorted_by newest_first _ times (failure_times_complete t table e));
    }

-- After the table is made and any calls of `record`, some of which may raise, whose rows are in the
-- order of time: the page's answer, if neither read raises, has the status that the dashboard holds,
-- exactly the recorded attempts from 182 days ago on, oldest first, and the newest failures, newest
-- first and at most 50.
pub deterrent_stats_lem :
    {Frame Float Time : Type 0} (rs : List Recording) (days_ago : ℕ → String)
    (state : DashboardState Frame Float Time)
    → IsSortedBy earlier (committed rs)
    → let db = record_all rs (init_schema (ok tt) none).1 in
      let status = get_deterrent_status state in
      (failures : List String) × (deterrent_stats (ok tt) (ok tt) days_ago state db
        ≡ ok (record {
          configured = status.configured;
          operational = status.operational;
          events =
              map
                (λ r. (r.timestamp_utc, r.succeeded))
                (keep_if (λ r. str_le (days_ago since_days) r.timestamp_utc) (committed rs));
          recent_failures = failures;
        }))
      × NewestFailures failure_limit (committed rs) failures
unfolding deterrent_stats init_schema
deterrent_stats_lem rs days_ago state s =
    let recent = λ (r : Row). str_le (days_ago since_days) r.timestamp_utc in
    let in_order =
      sorted_by-fixed earlier (keep_if recent (committed rs))
        (keep_if-IsSortedBy earlier recent (committed rs) s) in
    (
      take failure_limit (sorted_by newest_first (failure_times (committed rs))),
      rw (rows-record_all rs (some []), in_order),
      listed-NewestFailures failure_limit (committed rs),
    )
