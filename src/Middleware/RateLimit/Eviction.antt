-- ===== src/Middleware/RateLimit/Eviction.antt =====
-- The sweep of idle buckets.
use go_performance_starter.Prelude.{ℕ, ◌+◌, ◌≤◌, ◌↔◌, ◌≡◌, String, some, arith}
use go_performance_starter.Prelude.Dict.{lookup, lookup-retain}
use go_performance_starter.Middleware.RateLimit.{
  TokenBucket, LimiterEntry, LimiterStore, evict, stale_after,
}
use go_performance_starter.Middleware.RateLimit.Store.{IsStore}

module _ {bucket : TokenBucket} where
  -- A sweep drops exactly the buckets of the clients that have been idle for more than ten minutes:
  -- an entry is found afterwards if and only if it was there and its client was seen in the last ten
  -- minutes. It is then the same entry.
  pub evict_keeps :
      (s : LimiterStore bucket) (now : ℕ) (ip : String) (e : LimiterEntry bucket)
      → IsStore s
      → (lookup ip (evict bucket s now).entries ≡ some e)
        ↔ ((lookup ip s.entries ≡ some e) × (now ≤ e.last_seen + stale_after))
  unfolding evict
  evict_keeps s now ip e v =
      rw (lookup-retain _ ip s.entries v.unique) (λ h. ground arith, λ h. ground arith)
