-- ===== src/Middleware/RateLimit/Refusal.antt =====
-- A refused request costs nothing, and is told when to come back.
use go_performance_starter.Prelude.{ℕ, ◌*◌, ◌≤◌, ◌≡◌, ◌↔◌, arith, true, false}
use go_performance_starter.Middleware.RateLimit.{
  TokenBucket, take_token, retry_after_seconds, second,
}

-- What the documentation of golang.org/x/time/rate says: CancelAt reverses the effects of a
-- reservation on the rate limit (here, at the time at which it was made and with no reservation made
-- since), and a reservation that is not OK takes no tokens.
pub record IsDocumented (bucket : TokenBucket) : Type 0 where
  pub cancelled :
      (l : bucket.Limiter) (now t : ℕ)
      → now ≤ t
      → bucket.granted (bucket.reserve_n l now).1 ≡ true
      → bucket.tokens_at
          (bucket.cancel_at (bucket.reserve_n l now).0 (bucket.reserve_n l now).1 now)
          t
        ≡ bucket.tokens_at l t
  pub not_granted :
      (l : bucket.Limiter) (now t : ℕ)
      → now ≤ t
      → bucket.granted (bucket.reserve_n l now).1 ≡ false
      → bucket.tokens_at (bucket.reserve_n l now).0 t ≡ bucket.tokens_at l t

module _ (bucket : TokenBucket) (documented : IsDocumented bucket) where
  -- A request that `take` refuses leaves its bucket with the tokens that it would have had without
  -- the request, now and at every later time.
  pub take_token_refused :
      (l : bucket.Limiter) (now t : ℕ)
      → now ≤ t
      → (take_token bucket l now).1.1 ≡ false
      → bucket.tokens_at (take_token bucket l now).0 t ≡ bucket.tokens_at l t
  unfolding take_token
  take_token_refused l now t later h =
      ground (arith, documented.cancelled l now t later, documented.not_granted l now t later)

-- The Retry-After of a refused wait is the least whole number of seconds that covers the wait, and is
-- at least 1: a client that heeds it does not come back early.
pub retry_after_seconds_least :
    (wait n : ℕ) → (retry_after_seconds wait ≤ n) ↔ ((1 ≤ n) × (wait ≤ n * second))
unfolding retry_after_seconds
retry_after_seconds_least wait n = (λ h. (omega arith, omega arith), λ h. omega arith)
