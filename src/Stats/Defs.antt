-- ===== src/Stats/Defs.antt =====
-- `DeterrentStatsStore` over the table `deterrent_events`, as its rows in the order of their ids; the id
-- itself is never read. Every method opens a connection, and what SQLite answers to it is a parameter:
-- `err` for a connection or a statement that raises, which rolls back. A timestamp is the text that the
-- code stores, and texts compare as SQLite's default collation does. Rows of one timestamp come in the
-- order of their ids, which SQLite leaves open.
use counter_cruiser.Prelude.{
  ℕ, Bool, not, Option, none, some, List, [], ◌∷◌, ◌++◌, map, keep_if, take, String, str_le,
  sorted_by, Result, ok, err, ◌>>=◌,
}
use counter_cruiser.Dashboard.{DashboardState, get_deterrent_status}

pub record Row : Type 0 where
  pub timestamp_utc : String
  pub succeeded : Bool

-- The database file: none before the table exists.
abbrev pub Database : Type 0
Database = Option (List Row)

abbrev pub rows : Database → List Row
rows none = []
rows (some table) = table

-- `CREATE TABLE IF NOT EXISTS`
abbrev pub create_table : Database → Database
create_table none = some []
create_table (some table) = some table

abbrev pub on_success : Result (Unit {0}) → Database → Database → Database
on_success (ok u) after before = after
on_success (err e) after before = before

unfoldable pub init_schema : Result (Unit {0}) → Database → Result (Unit {0}) × Database
init_schema answer db = (answer, on_success answer (create_table db) db)

-- `record_event` is the method `record`.
unfoldable pub record_event :
    Result (Unit {0}) → String → Bool → Database → Result (Unit {0}) × Database
record_event answer now succeeded db =
    let row : Row = record { timestamp_utc = now; succeeded = succeeded } in
    (answer, on_success answer (some (rows db ++ row ∷ [])) db)

abbrev pub earlier : Row → Row → Bool
earlier a b = str_le a.timestamp_utc b.timestamp_utc

abbrev pub newest_first : String → String → Bool
newest_first a b = str_le b a

-- `cutoff` is the time `since_days` before now.
unfoldable pub recent_events : Result (Unit {0}) → String → Database → Result (List (String × Bool))
recent_events answer cutoff db = answer >>= λ u. ok (
    map (λ r. (r.timestamp_utc, r.succeeded))
      (sorted_by earlier (keep_if (λ r. str_le cutoff r.timestamp_utc) (rows db))))

unfoldable pub recent_failures : Result (Unit {0}) → ℕ → Database → Result (List String)
recent_failures answer limit db = answer >>= λ u. ok (
    take limit (
      sorted_by newest_first
        (map (λ r. r.timestamp_utc) (keep_if (λ r. not r.succeeded) (rows db)))))

abbrev pub since_days : ℕ
since_days = 182

abbrev pub failure_limit : ℕ
failure_limit = 50

-- The JSON of `/api/deterrent-stats`.
pub record StatsAnswer : Type 0 where
  pub configured : Bool
  pub operational : Bool
  pub events : List (String × Bool)
  pub recent_failures : List String

-- `days_ago` gives the time so many days before now.
unfoldable pub deterrent_stats :
    {Frame Float Time : Type 0}
    → Result (Unit {0})
    → Result (Unit {0})
    → (ℕ → String)
    → DashboardState Frame Float Time
    → Database
    → Result StatsAnswer
unfolding recent_events recent_failures
deterrent_stats events_answer failures_answer days_ago state db = do
  events ← recent_events events_answer (days_ago since_days) db
  failures ← recent_failures failures_answer failure_limit db
  let status = get_deterrent_status state
  ok (record {
    configured = status.configured;
    operational = status.operational;
    events = events;
    recent_failures = failures;
  })
