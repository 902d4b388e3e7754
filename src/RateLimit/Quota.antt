-- ===== src/RateLimit/Quota.antt =====
-- How many requests the rate limiter of src/services/rate-limit-service.ts lets through in a window.
use keylore.Prelude.{
  ℕ, ◌+◌, ◌-◌, ◌<◌, min, String, ◌≡◌, refl, sym, ap, ◌∙◌, Bool, true, false, none, some, List, [],
  ◌∷◌, ◌++◌, ◌==◌, ◌&&◌, not, if◌then◌else◌, find, update_first, All, Bool-cases, Option-cases, inl,
  inr, arith, eq_iff, eq_refl,
}
use keylore.Exec.{Result, ok, thrown}
use keylore.RateLimit.{
  RateLimitRow, RateLimitResult, RateLimits, has_key, select_row, insert_row, is_over, counted,
  answer, check,
}

pub record Call : Type 0 where
  pub key : String
  pub now : ℕ

abbrev pub is_admitted : Result RateLimitResult → Bool
is_admitted (ok r) = not r.limited
is_admitted (thrown e) = false

-- How many of the calls have this key.
abbrev pub calls_of : String → List Call → ℕ
calls_of key [] = 0
calls_of key (call ∷ calls) = (if call.key == key then 1 else 0) + calls_of key calls

module _ {A : Type 0} (p : A → Bool) where
  pub find-update_first :
      (f : A → A) (xs : List A) {x : A}
      → ((y : A) → p (f y) ≡ p y)
      → find p xs ≡ some x
      → find p (update_first p f xs) ≡ some (f x)
  find-update_first f [] k h = cc
  find-update_first f (y ∷ xs) {x} k h = elim (Bool-cases (p y)) [
    | inl e ↦ rw (e, k y ∙ e) (ground (arith, e, h))
    | inr e ↦ rw (e, e) (find-update_first f xs k (ground (arith, e, h)))
  ]

  find-append_none : (xs ys : List A) → find p xs ≡ none → find p (xs ++ ys) ≡ find p ys
  find-append_none [] ys h = refl
  find-append_none (y ∷ xs) ys h = elim (Bool-cases (p y)) [
    | inl e ↦ absurd (ground (arith, e, h))
    | inr e ↦ rw e (find-append_none xs ys (ground (arith, e, h)))
  ]

  find-append_other : (xs : List A) (y : A) → p y ≡ false → find p (xs ++ y ∷ []) ≡ find p xs
  find-append_other [] y h = rw h refl
  find-append_other (x ∷ xs) y h = elim (Bool-cases (p x)) [
    | inl e ↦ rw e refl
    | inr e ↦ rw e (find-append_other xs y h)
  ]

  find-update_other :
      (q : A → Bool) (f : A → A) (xs : List A)
      → ((y : A) → p (f y) ≡ p y)
      → ((y : A) → q y ≡ true → p y ≡ false)
      → find p (update_first q f xs) ≡ find p xs
  find-update_other q f [] k d = refl
  find-update_other q f (y ∷ xs) k d = elim (Bool-cases (q y)) [
    | inl e ↦ rw (e, k y ∙ d y e, d y e) refl
    | inr e ↦ elim (Bool-cases (p y)) [
      | inl g ↦ rw (e, g) refl
      | inr g ↦ rw (e, g) (find-update_other q f xs k d)
    ]
  ]

-- The row of a first request.
abbrev pub first_row : ℕ → String → RateLimitRow
first_row now key = record { bucket_key = key; window_started_at = now; request_count = 1 }

pub inserted :
    (now : ℕ) (key : String) (table : RateLimits)
    → select_row key table ≡ none
    → insert_row now key table ≡ (ok (some (first_row now key)), table ++ first_row now key ∷ [])
inserted now key table h = rw (insert_row, h) refl

module _ (window_ms max_requests : ℕ) where
  -- A check that no other transaction disturbs.
  abbrev pub check_alone : Call → RateLimits → Result RateLimitResult × RateLimits
  check_alone call table = check window_ms max_requests call.now call.key (λ t. t) (λ t. t) table

  -- How many calls with the key are let through when the calls run one after the other.
  unfoldable pub admitted : String → List Call → RateLimits → ℕ
  admitted key [] table = 0
  admitted key (call ∷ calls) table =
      let (r, after) = check_alone call table in
      (if call.key == key && is_admitted r then 1 else 0) + admitted key calls after

  pub check-found :
      (call : Call) (table : RateLimits) {row : RateLimitRow}
      → select_row call.key table ≡ some row
      → (select_row call.key (check_alone call table).1
          ≡ some (counted window_ms max_requests call.now row row))
        × ((check_alone call table).0
            ≡ answer window_ms max_requests call.now
                (some (counted window_ms max_requests call.now row row)))
  unfolding check
  check-found call table {row = row} h =
      let next =
        find-update_first (has_key call.key) (counted window_ms max_requests call.now row) table
          (λ y. refl) h in
      (rw (check, h) next, rw (check, h, next) refl)

  other_key :
      (key key' : String)
      → (key == key') ≡ false
      → (row : RateLimitRow) → has_key key row ≡ true
      → has_key key' row ≡ false
  other_key key key' d row h = ap (λ t. t == key') ((eq_iff row.bucket_key key).0 h) ∙ d

  check-other :
      (call : Call) (key : String) (table : RateLimits)
      → (call.key == key) ≡ false
      → select_row key (check_alone call table).1 ≡ select_row key table
  unfolding check
  check-other call key table d = elim (Option-cases (select_row call.key table)) [
    | inl h ↦
        rw (check, h, inserted call.now call.key table h)
          (find-append_other (has_key key) table _ d)
    | inr (row, h) ↦
        rw (check, h)
          (find-update_other (has_key key) (has_key call.key)
            (counted window_ms max_requests call.now row) table (λ y. refl)
            (other_key call.key key d))
  ]

  check-missing :
      (call : Call) (table : RateLimits)
      → select_row call.key table ≡ none
      → (select_row call.key (check_alone call table).1 ≡ some (first_row call.now call.key))
        × ((check_alone call table).0
            ≡ answer window_ms max_requests call.now (some (first_row call.now call.key)))
  unfolding check
  check-missing call table h = (
    rw (check, h, inserted call.now call.key table h)
        (find-append_none (has_key call.key) table (first_row call.now call.key ∷ []) h
          ∙ rw (eq_refl call.key) refl),
    rw (check, h, inserted call.now call.key table h) refl,
  )

  module _ (key : String) where
    abbrev pub next_row : RateLimitRow → RateLimitRow
    next_row row = record row { request_count = row.request_count + 1 }

    pub counted-within :
        (now : ℕ) (row : RateLimitRow)
        → now < row.window_started_at + window_ms
        → counted window_ms max_requests now row row ≡ next_row row
    counted-within now row h =
        let fresh : is_over window_ms max_requests now row ≡ false = (ground (arith, h)) in
        rw fresh refl

    -- If the key has a row, and the calls, one after the other, all fall into its window, then of the calls
    -- of the key exactly as many are let through as the quota has left, or all if they are fewer;
    -- calls of other keys among them change nothing.
    pub admitted-min :
        (calls : List Call) (table : RateLimits) (row : RateLimitRow)
        → select_row key table ≡ some row
        → All (λ call. call.now < row.window_started_at + window_ms) calls
        → admitted key calls table ≡ min (calls_of key calls) (max_requests - row.request_count)
    unfolding admitted
    admitted-min [] table row h within = omega arith
    admitted-min (call ∷ calls) table row h (now, within) = elim (Bool-cases (call.key == key)) [
      | inl e ↦
          let same : call.key ≡ key = ((eq_iff call.key key).0 e) in
          let (found, answered) =
            check-found call table {row = row} (ap (λ k. select_row k table) same ∙ h) in
          let grown = counted-within call.now row now in
          let rest =
            admitted-min calls (check_alone call table).1 (next_row row)
              (ap (λ k. select_row k (check_alone call table).1) (sym same) ∙ found ∙ ap some grown)
              within in
          let verdict : (check_alone call table).0
              ≡ answer window_ms max_requests call.now (some (next_row row)) =
            (answered ∙ ap (λ r. answer window_ms max_requests call.now (some r)) grown) in
          rw (e, verdict, rest) (ground arith)
      | inr e ↦
          rw
            (
              e,
              admitted-min calls (check_alone call table).1 row (check-other call key table e ∙ h)
                  within,
            )
            (ground arith)
    ]

    -- If the key has no row, then of a first call of it and the calls of it that follow, one after the
    -- other and all less than a window later, exactly the quota is let through, or all if they are fewer.
    admitted-first :
        (call : Call) (calls : List Call) (table : RateLimits)
        → call.key ≡ key
        → select_row key table ≡ none
        → All (λ later. later.now < call.now + window_ms) calls
        → admitted key (call ∷ calls) table ≡ min (1 + calls_of key calls) max_requests
    unfolding admitted
    admitted-first call calls table same h within =
        let (found, answered) = check-missing call table (ap (λ k. select_row k table) same ∙ h) in
        let rest =
          admitted-min calls (check_alone call table).1 (first_row call.now call.key)
            (ap (λ k. select_row k (check_alone call table).1) (sym same) ∙ found) within in
        rw ((eq_iff call.key key).1 same, answered, rest) (ground arith)
