-- ===== src/RateLimit/Cleanup.antt =====
-- What `cleanup` of src/services/rate-limit-service.ts leaves.
use keylore.Prelude.{
  ℕ, ◌+◌, ◌<◌, String, ◌≡◌, Bool, true, some, List, [], ◌∷◌, find, filter, Bool-cases, inl, inr,
  arith,
}
use keylore.RateLimit.{RateLimitRow, RateLimits, has_key, select_row, cleanup}

find-filter :
    {A : Type 0} (p q : A → Bool) (xs : List A) {x : A}
    → find p xs ≡ some x
    → q x ≡ true
    → find p (filter q xs) ≡ some x
find-filter p q [] h k = cc
find-filter p q (y ∷ xs) {x} h k = elim (Bool-cases (p y)) [
  | inl e ↦
      let same : y ≡ x = (ground (arith, e, h)) in
      let kept : q y ≡ true = (cc (same, k)) in rw (kept, e) (ground (arith, e, h))
  | inr e ↦
      let rest = find-filter p q xs (ground (arith, e, h)) k in
      elim (Bool-cases (q y)) [ inl g ↦ rw (g, e) rest | inr g ↦ rw g rest ]
]

-- A cleanup leaves every bucket whose window is open: it finds the same row afterwards.
pub cleanup-keeps_open :
    (window_ms max_requests now : ℕ) (key : String) (table : RateLimits) (row : RateLimitRow)
    → select_row key table ≡ some row
    → now < row.window_started_at + window_ms
    → select_row key (cleanup window_ms max_requests now table) ≡ some row
unfolding cleanup
cleanup-keeps_open window_ms max_requests now key table row h within =
    find-filter (has_key key) _ table h (ground arith)
