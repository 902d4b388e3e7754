-- ===== src/RateLimit/Tests.antt =====
-- The rate limiter with a window of a minute and a quota of two.
use keylore.Prelude.{ℕ, min, String, ◌≡◌, refl, true, some, List, [], ◌∷◌, arith}
use keylore.Exec.{ok}
use keylore.RateLimit.{RateLimitRow, RateLimitResult, select_row, check, cleanup}
use keylore.RateLimit.Quota.{Call, calls_of, admitted, check_alone, admitted-min}
use keylore.RateLimit.Cleanup.{cleanup-keeps_open}
use keylore.RateLimit.Race.{check-returns, lost_update}

abbrev row : RateLimitRow
row = record { bucket_key = "ip:a"; window_started_at = 1000; request_count = 1 }

abbrev at_time : String → ℕ → Call
at_time key now = record { key = key; now = now }

abbrev calls : List Call
calls = at_time "ip:a" 2000 ∷ at_time "ip:b" 3000 ∷ at_time "ip:a" 4000 ∷ []

third_is_limited :
    (check 60000 2 4000 "ip:a" (λ t. t) (λ t. t) (record row { request_count = 2 } ∷ [])).0
    ≡ ok (record { limited = true; retry_after_seconds = some 57; remaining = 0 })
unfolding check
third_is_limited = refl

admitted-min_example : admitted 60000 2 "ip:a" calls (row ∷ []) ≡ min (calls_of "ip:a" calls) 1
admitted-min_example =
    admitted-min 60000 2 "ip:a" calls (row ∷ []) row refl
      (omega arith, (omega arith, (omega arith, tt)))

check-returns_example :
    (r : RateLimitResult) × ((check 60000 2 2000 "ip:a" (λ t. row ∷ t) (λ t. t) []).0 ≡ ok r)
check-returns_example =
    check-returns 60000 2 2000 "ip:a" (λ t. row ∷ t) (λ t. t) [] (λ t r h. (row, refl))
      (λ t r h. (r, h))

lost_update_example :
    select_row "ip:a"
      (check 60000 2 2000 "ip:a"
        (λ t. (check_alone 60000 2 (at_time "ip:a" 2000) t).1)
        (λ u. u)
        (row ∷ [])).1
    ≡ some (record row { request_count = 2 })
lost_update_example = lost_update 60000 2 2000 "ip:a" (row ∷ []) row refl (omega arith)

cleanup-keeps_open_example : select_row "ip:a" (cleanup 60000 2 2000 (row ∷ [])) ≡ some row
cleanup-keeps_open_example =
    cleanup-keeps_open 60000 2 2000 "ip:a" (row ∷ []) row refl (omega arith)
