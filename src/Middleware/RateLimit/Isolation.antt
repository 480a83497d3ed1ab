-- ===== src/Middleware/RateLimit/Isolation.antt =====
-- Each client address has a bucket of its own: requests and sweeps against a map from addresses to
-- buckets.
use text.Mathlib.Text.{◌==◌ as str_eq}
use mathlib.Core.Option
use go_performance_starter.Prelude.{
  ℕ, ◌≡◌, refl, ap, ◌∙◌, subst, Bool, true, false, String, Option, none, some, List, [], ◌∷◌, arith,
  if◌then◌else◌,
}
use go_performance_starter.Prelude.Dict.{lookup-retain, IsUnique-retain}
use go_performance_starter.Middleware.RateLimit.{
  TokenBucket, LimiterStore, new_limiter_store, get, evict, take_token, write, take, handle,
  verdict_of,
}
use go_performance_starter.Middleware.RateLimit.Store.{
  IsStore, bucket_of, current, new_limiter_store-IsStore, write-IsStore, get-IsStore, get_views,
  get_pointer, write_views,
}

if_else {ℓ} :
    {A : Type ℓ} (x y z w : A) (b : Bool)
    → w ≡ (if b then y else z)
    → (if b then x else w) ≡ (if b then x else z)
if_else x y z w true h = refl
if_else x y z w false h = h

module _ {bucket : TokenBucket} where
  -- What one request does to the buckets, and how it is answered.
  pub record Handled (s : LimiterStore bucket) (ip : String) (seen now : ℕ) : Type 0 where
    pub after : LimiterStore bucket
    pub answered :
        handle bucket s ip seen now
        ≡ some (after, verdict_of (take_token bucket (current s ip) now).1)
    pub store : IsStore after
    pub buckets :
        (k : String)
        → bucket_of after k
          ≡ (if str_eq ip k then some (take_token bucket (current s ip) now).0 else bucket_of s k)

  -- A request never meets a dangling pointer. It is answered by the verdict of its own address's
  -- bucket, a full one at first sight; afterwards that address has the bucket that `take` left, the
  -- buckets of all other addresses are untouched, and the store is consistent again.
  pub handle-Handled :
      (s : LimiterStore bucket) (ip : String) (seen now : ℕ) → IsStore s → Handled s ip seen now
  unfolding handle take write
  handle-Handled s ip seen now v =
      let (found, views) = get_views s ip seen v in
      let (e, known, here) = get_pointer s ip seen v in
      let mid = (get bucket s ip seen).0 in
      let lim = take_token bucket (current s ip) now in
      record {
        after = (write bucket mid (get bucket s ip seen).1 lim).0;
        answered = rw (found, take) refl;
        store = write-IsStore mid _ lim (get-IsStore s ip seen v);
        buckets = λ k.
            subst
              (λ ptr.
                bucket_of (write bucket mid ptr lim).0 k
                ≡ (if str_eq ip k then some lim.0 else bucket_of mid k))
              here (write_views mid ip e lim.0 lim.1 (get-IsStore s ip seen v) known k)
            ∙ if_else _ _ _ _ (str_eq ip k) (views k);
      }

  pub evict-IsStore : (s : LimiterStore bucket) (now : ℕ) → IsStore s → IsStore (evict bucket s now)
  unfolding evict
  evict-IsStore s now v = record {
    unique = IsUnique-retain _ s.entries v.unique;
    in_range =
        λ ip e. rw (lookup-retain _ ip s.entries v.unique) (λ h. ground (arith, v.in_range ip e));
    apart = λ ip j e f.
        rw (lookup-retain _ ip s.entries v.unique, lookup-retain _ j s.entries v.unique)
          (λ h k same. ground (arith, v.apart ip j e f));
  }

-- What happens to a store: requests, each with the two times that it reads, and sweeps.
pub data Op : Type 0 where
  request : String → (seen now : ℕ) → Op
  sweep : ℕ → Op

module _ {bucket : TokenBucket} where
  -- The states of a run; `none` would be a run that met a dangling pointer.
  abbrev pub run : Option (LimiterStore bucket) → List Op → Option (LimiterStore bucket)
  run none ops = none
  run (some s) [] = some s
  run (some s) (request ip seen now ∷ ops) =
      run (Option.map (λ r. r.0) (handle bucket s ip seen now)) ops
  run (some s) (sweep now ∷ ops) = run (some (evict bucket s now)) ops

  run_total :
      (s : LimiterStore bucket) (ops : List Op)
      → IsStore s
      → (t : LimiterStore bucket) × (run (some s) ops ≡ some t) × IsStore t
  run_total s [] v = (s, refl, v)
  run_total s (request ip seen now ∷ ops) v =
      let h = handle-Handled s ip seen now v in
      let (t, e, w) = run_total h.after ops h.store in
      (t, ap (λ o. run (Option.map (λ r. r.0) o) ops) h.answered ∙ e, w)
  run_total s (sweep now ∷ ops) v = run_total (evict bucket s now) ops (evict-IsStore s now v)

  -- From a new store, any sequence of requests and sweeps runs to its end without a dangling pointer,
  -- and leaves a store in which no two addresses share a bucket.
  pub run-IsStore :
      (rps : bucket.Rate) (burst : ℕ) (ops : List Op)
      → (t : LimiterStore bucket) × (run (some (new_limiter_store bucket rps burst)) ops ≡ some t)
        × IsStore t
  run-IsStore rps burst ops = run_total _ ops (new_limiter_store-IsStore rps burst)
