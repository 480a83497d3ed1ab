-- ===== src/Middleware/RateLimit.antt =====
-- internal/middleware/ratelimit.go: one token bucket per client address. The buckets themselves are
-- golang.org/x/time/rate, a parameter. Times and durations are numbers of nanoseconds. A bucket is
-- shared by pointer between the map and the requests that hold it, so the buckets stand on a heap.
-- The mutex makes `get` and `evict` one step each; a bucket has a lock of its own.
pub mod Store
pub mod Isolation
pub mod Eviction
pub mod Refusal
mod Tests
use go_performance_starter.Prelude.{
  ℕ, zero, suc, ◌+◌, ◌-◌, ◌*◌, ◌/◌, ◌≤◌, max, ◌≡◌, Bool, true, false, String, Option, none, some,
  List, [], ◌∷◌, ◌++◌, ltb, not, if◌then◌else◌, length, set, get_elem?,
}
use go_performance_starter.Prelude.Dict.{Dict, lookup, insert, retain}

abbrev pub second : ℕ
second = 1000000000

-- evictInterval
abbrev pub evict_interval : ℕ
evict_interval = 3 * 60 * second

-- staleAfter
abbrev pub stale_after : ℕ
stale_after = 10 * 60 * second

-- What the program uses of rate.Limiter: NewLimiter, ReserveN(now, 1), and of a reservation OK,
-- DelayFrom(now) and CancelAt(now). `tokens_at` is TokensAt, by which the laws are stated.
pub record TokenBucket : Type 1 where
  pub Rate : Type 0
  pub Limiter : Type 0
  pub Reservation : Type 0
  pub Tokens : Type 0
  pub new_limiter : Rate → ℕ → Limiter
  pub reserve_n : Limiter → ℕ → Limiter × Reservation
  pub granted : Reservation → Bool
  pub delay_from : Reservation → ℕ → ℕ
  pub cancel_at : Limiter → Reservation → ℕ → Limiter
  pub tokens_at : Limiter → ℕ → Tokens

module _ (bucket : TokenBucket) where
  open bucket use {Rate, Limiter, new_limiter, reserve_n, granted, delay_from, cancel_at}

  -- limiterEntry; the limiter is a pointer
  pub record LimiterEntry : Type 0 where
    pub limiter : ℕ
    pub last_seen : ℕ

  -- limiterStore, with the heap that its pointers point into
  pub record LimiterStore : Type 0 where
    pub entries : Dict LimiterEntry
    pub rps : Rate
    pub burst : ℕ
    pub heap : List Limiter

  -- newLimiterStore
  unfoldable pub new_limiter_store : Rate → ℕ → LimiterStore
  new_limiter_store rps burst = record { entries = []; rps = rps; burst = burst; heap = [] }

  -- get's branch on what the map has; a new bucket is allocated at the end of the heap
  get_entry : LimiterStore → String → ℕ → Option LimiterEntry → LimiterStore × ℕ
  get_entry s ip now none = (
    record s {
      entries = insert ip (record { limiter = length s.heap; last_seen = now }) s.entries;
      heap = s.heap ++ new_limiter s.rps s.burst ∷ [];
    },
    length s.heap,
  )
  get_entry s ip now (some entry) =
      (record s { entries = insert ip (record entry { last_seen = now }) s.entries }, entry.limiter)

  -- get
  unfoldable pub get : LimiterStore → String → ℕ → LimiterStore × ℕ
  unfolding get_entry
  get s ip now = get_entry s ip now (lookup ip s.entries)

  -- evict
  unfoldable pub evict : LimiterStore → ℕ → LimiterStore
  evict s now = record s {
    entries = retain (λ entry. not (ltb stale_after (now - entry.last_seen))) s.entries;
  }

  -- take, on the bucket
  unfoldable pub take_token : Limiter → ℕ → Limiter × (ℕ × Bool)
  take_token lim now =
      let (reserved, res) = reserve_n lim now in
      let delay = delay_from res now in
      if not (granted res)
      then (reserved, (second, false))
      else if ltb 0 delay
      then (cancel_at reserved res now, (delay, false))
      else (reserved, (0, true))

  -- the write through the pointer
  pub write : LimiterStore → ℕ → Limiter × (ℕ × Bool) → LimiterStore × (ℕ × Bool)
  write s ptr (lim, verdict) = (record s { heap = set s.heap ptr lim }, verdict)

  -- take, through the pointer; `none` would be a dangling pointer
  unfoldable pub take : LimiterStore → ℕ → ℕ → Option (LimiterStore × (ℕ × Bool))
  unfolding take_token write
  take s ptr now = elim (get_elem? s.heap ptr) [
    | none ↦ none
    | some lim ↦ some (write s ptr (take_token lim now))
  ]

-- retryAfterSeconds, before it is printed: the least whole number of seconds that is no less than the
-- wait, and at least 1. The float64 of wait.Seconds() keeps a fraction apart from zero for every wait
-- below 2 ^ 23 seconds, so its Ceil is this rounding up.
unfoldable pub retry_after_seconds : ℕ → ℕ
retry_after_seconds wait = max ((wait + 999999999) / second) 1

-- What RateLimiterWith does with a request: it calls `next`, or it sets Retry-After and calls
-- `refused`.
pub data Verdict : Type 0 where
  serve : Verdict
  refuse : (retry_after : ℕ) → Verdict

abbrev verdict_of : ℕ × Bool → Verdict
verdict_of (wait, allowed) = if allowed then serve else refuse (retry_after_seconds wait)

module _ (bucket : TokenBucket) where
  abbrev finish : Option (LimiterStore bucket × (ℕ × Bool)) → Option (LimiterStore bucket × Verdict)
  finish none = none
  finish (some (s, v)) = some (s, verdict_of v)

  -- the handler of RateLimiterWith, of a request from `ip`; the clock is read by `get` and by `take`
  unfoldable pub handle :
      LimiterStore bucket → String → ℕ → ℕ → Option (LimiterStore bucket × Verdict)
  handle s ip seen now = let (s', ptr) = get bucket s ip seen in finish (take bucket s' ptr now)
