-- ===== src/RateLimit/Race.antt =====
-- Checks of one key at the same time in src/services/rate-limit-service.ts.
use keylore.Prelude.{ℕ, ◌+◌, ◌<◌, String, ◌≡◌, refl, ap, ◌∙◌, some, Option-cases, inl, inr}
use keylore.Exec.{Result, ok, thrown}
use keylore.RateLimit.{
  RateLimitRow, RateLimitResult, RateLimits, has_key, select_row, insert_row, counted, answer,
  check,
}
use keylore.RateLimit.Quota.{
  find-update_first, inserted, next_row, counted-within, check-found, first_row, Call, check_alone,
}

-- What others commit does not remove the row of the key.
abbrev pub Stays : String → (RateLimits → RateLimits) → Type 0
Stays key between =
    (table : RateLimits) (row : RateLimitRow)
    → select_row key table ≡ some row
    → (row' : RateLimitRow) × (select_row key (between table) ≡ some row')

module _ (window_ms max_requests now : ℕ) (key : String) where
  -- A check that read a row, and whose row stays, writes the count that it read, and answers by it.
  check-between :
      (first second : RateLimits → RateLimits) (table : RateLimits) {row row' : RateLimitRow}
      → select_row key table ≡ some row
      → select_row key (first table) ≡ some row'
      → (select_row key (check window_ms max_requests now key first second table).1
          ≡ some (counted window_ms max_requests now row row'))
        × ((check window_ms max_requests now key first second table).0
            ≡ answer window_ms max_requests now
                (some (counted window_ms max_requests now row row')))
  unfolding check
  check-between first second table {row} h k =
      let written =
        find-update_first (has_key key) (counted window_ms max_requests now row) (first table)
          (λ y. refl) k in
      (rw (check, h) written, rw (check, h, written) refl)

  answered :
      (r : Result RateLimitResult) (row : RateLimitRow)
      → r ≡ answer window_ms max_requests now (some row)
      → (a : RateLimitResult) × (r ≡ ok a)
  answered r row h = (_, h)

  refused :
      (table : RateLimits) {row : RateLimitRow}
      → select_row key table ≡ some row
      → insert_row now key table ≡ (thrown "23505", table)
  refused table h = rw (insert_row, h) refl

  -- A check always returns: whatever others commit during its two attempts, as long as they do not
  -- remove the row of the key, one of the attempts succeeds.
  pub check-returns :
      (first second : RateLimits → RateLimits) (table : RateLimits)
      → Stays key first
      → Stays key second
      → (r : RateLimitResult) × ((check window_ms max_requests now key first second table).0 ≡ ok r)
  unfolding check
  check-returns first second table stays stays' = elim (Option-cases (select_row key table)) [
    | inr (row, h) ↦
        let (row', k) = stays table row h in
        answered _ (counted window_ms max_requests now row row')
          ((check-between first second table {row = row} h k).1)
    | inl h ↦ elim (Option-cases (select_row key (first table))) [
      | inl k ↦
          answered _ (first_row now key) (rw (check, h, inserted now key (first table) k) refl)
      | inr (row, k) ↦
          let (row', l) = stays' (first table) row k in
          let written =
            find-update_first (has_key key) (counted window_ms max_requests now row)
              (second (first table)) (λ y. refl) l in
          answered _ (counted window_ms max_requests now row row')
            (rw (check, h, refused (first table) k, k, written) refl)
    ]
  ]

  grown :
      (row : RateLimitRow)
      → now < row.window_started_at + window_ms
      → counted window_ms max_requests now row row ≡ next_row window_ms max_requests key row
  grown = counted-within window_ms max_requests key now

  rewritten :
      (row : RateLimitRow)
      → now < row.window_started_at + window_ms
      → counted window_ms max_requests now row (next_row window_ms max_requests key row)
        ≡ next_row window_ms max_requests key row
  rewritten row h = grown row h

  -- Two checks at one instant of a key whose window is open, the second of which runs between the two
  -- statements of the first, raise the count by one only.
  pub lost_update :
      (table : RateLimits) (row : RateLimitRow)
      → select_row key table ≡ some row
      → now < row.window_started_at + window_ms
      → select_row key
          (check window_ms max_requests now key
            (λ t. (check_alone window_ms max_requests (record { key = key; now = now }) t).1)
            (λ u. u)
            table).1
        ≡ some (next_row window_ms max_requests key row)
  lost_update table row h within =
      let other : Call = record { key = key; now = now } in
      let (counted_once, answered) = check-found window_ms max_requests other table {row = row} h in
      (check-between (λ t. (check_alone window_ms max_requests other t).1) (λ u. u) table
        {row = row} h counted_once).0
      ∙ ap some
          (ap (counted window_ms max_requests now row) (grown row within) ∙ rewritten row within)
