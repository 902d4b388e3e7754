-- ===== src/RateLimit.antt =====
-- The fixed-window counter of src/services/rate-limit-service.ts.
mod Quota
mod Race
mod Cleanup
mod Tests
use keylore.Prelude.{
  ℕ, ◌+◌, ◌-◌, ◌*◌, ◌/◌, String, Bool, true, false, Option, none, some, List, [], ◌∷◌, ◌++◌, ◌==◌,
  ltb, leb, max, if◌then◌else◌, find, filter, not, update_first,
}
use keylore.Exec.{Result, ok, thrown}

-- A row of `request_rate_limits`.
pub record RateLimitRow : Type 0 where
  pub bucket_key : String
  pub window_started_at : ℕ
  pub request_count : ℕ

pub record RateLimitResult : Type 0 where
  pub limited : Bool
  pub retry_after_seconds : Option ℕ
  pub remaining : ℕ

abbrev pub RateLimits : Type 0
RateLimits = List RateLimitRow

abbrev pub has_key : String → RateLimitRow → Bool
has_key key row = row.bucket_key == key

abbrev pub select_row : String → RateLimits → Option RateLimitRow
select_row key table = find (has_key key) table

-- `INSERT`: the primary key refuses a second row, with the SQL state 23505.
abbrev pub insert_row : ℕ → String → RateLimits → Result (Option RateLimitRow) × RateLimits
insert_row now key table = elim (select_row key table) [
  | some row ↦ (thrown "23505", table)
  | none ↦
      let row : RateLimitRow = record {
        bucket_key = key;
        window_started_at = now;
        request_count = 1;
      } in
      (ok (some row), table ++ row ∷ [])
]

module _ (window_ms max_requests : ℕ) where
  abbrev pub is_over : ℕ → RateLimitRow → Bool
  is_over now current = leb (current.window_started_at + window_ms) now

  -- The row as `UPDATE` writes it, from the row that was read before.
  abbrev pub counted : ℕ → RateLimitRow → RateLimitRow → RateLimitRow
  counted now current row = record row {
    request_count = if is_over now current then 1 else current.request_count + 1;
    window_started_at = if is_over now current then now else current.window_started_at;
  }

  -- The second statement of the transaction, given the row that its `SELECT` returned.
  abbrev pub write :
      ℕ → String → Option RateLimitRow → RateLimits → Result (Option RateLimitRow) × RateLimits
  write now key none table = insert_row now key table
  write now key (some current) table =
      let updated = update_first (has_key key) (counted now current) table in
      (ok (select_row key updated), updated)

  -- One run of the transaction; `between` is what others commit between its two statements.
  abbrev pub transact :
      ℕ
      → String
      → (RateLimits → RateLimits)
      → RateLimits
      → Result (Option RateLimitRow) × RateLimits
  transact now key between table = write now key (select_row key table) (between table)

  -- Whole seconds, rounded up, until the window of a row ends, and at least one.
  abbrev pub retry_after : ℕ → RateLimitRow → ℕ
  retry_after now row = max 1 ((row.window_started_at + window_ms - now + 999) / 1000)

  abbrev pub answer : ℕ → Option RateLimitRow → Result RateLimitResult
  answer now none = thrown "Failed to update rate limit state."
  answer now (some row) =
      let limited = ltb max_requests row.request_count in
      ok (record {
        limited = limited;
        retry_after_seconds = if limited then some (retry_after now row) else none;
        remaining = max_requests - row.request_count;
      })

  -- What follows an attempt: a second one if the first met the primary key.
  abbrev concluded :
      ℕ
      → String
      → (RateLimits → RateLimits)
      → Result (Option RateLimitRow) × RateLimits
      → Result RateLimitResult × RateLimits
  concluded now key between (ok row, table) = (answer now row, table)
  concluded now key between (thrown code, table) =
      if code == "23505" then last_of (transact now key between table) else (thrown code, table)
    where
      last_of : Result (Option RateLimitRow) × RateLimits → Result RateLimitResult × RateLimits
      last_of (ok row, table) = (answer now row, table)
      last_of (thrown code, table) = (thrown code, table)

  -- `check`; `first` and `second` are what others commit during the two attempts.
  unfoldable pub check :
      ℕ
      → String
      → (RateLimits → RateLimits)
      → (RateLimits → RateLimits)
      → RateLimits
      → Result RateLimitResult × RateLimits
  check now key first second table = concluded now key second (transact now key first table)

  -- `cleanup` deletes the windows that started more than four windows ago.
  unfoldable pub cleanup : ℕ → RateLimits → RateLimits
  cleanup now table = filter (λ row. not (ltb (row.window_started_at + window_ms * 4) now)) table
