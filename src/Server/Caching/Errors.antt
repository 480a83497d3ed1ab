-- ===== src/Server/Caching/Errors.antt =====
-- An error is never cached.
use go_performance_starter.Prelude.{
  ℕ, ◌≡◌, sym, subst, some-injective, refl, ap, ◌∙◌, ◌≤◌, Bool, true, false, none, some, List, [],
  ◌∷◌, arith, All, le→leb,
}
use go_performance_starter.Prelude.Dict.{Dict, lookup, lookup-insert}
use go_performance_starter.Prelude.Text.{Text}
use go_performance_starter.Writers.{
  Writer, write_header, write, set_header, is_informational, Act, sets_header, writes_header,
  writes, send_first,
}
use go_performance_starter.Server.Caching.{
  uncached_write_header, uncached_write, act, act_all, cache_control_wrapper, no_store, downgrade,
  cache_policy,
}

-- What was sent is no error, or may not be stored.
abbrev pub IsSafe : ℕ × Dict Text → Type 0
IsSafe (status, h) = 400 ≤ status → lookup "Cache-Control" h ≡ some no_store

-- Before the wrapper saw a status nothing was sent; afterwards something safe was.
abbrev IsUncached : Writer → Bool → Type 0
IsUncached w false = w.sent ≡ none
IsUncached w true = (s : ℕ × Dict Text) × (w.sent ≡ some s) × IsSafe s

-- The handler sends no informational status.
abbrev pub IsFinal : Act → Type 0
IsFinal (sets_header name value) = Unit
IsFinal (writes_header status) = is_informational status ≡ false
IsFinal (writes bytes) = Unit

downgrade-IsSafe : (w : Writer) (status : ℕ) → IsSafe (status, (downgrade w status).header)
downgrade-IsSafe w status error =
    rw (le→leb 400 status error)
      (rw (lookup-insert "Cache-Control" "Cache-Control" no_store w.header) refl)

downgrade_sent : (w : Writer) (status : ℕ) → (downgrade w status).sent ≡ w.sent
downgrade_sent w status = ground arith

-- The wrapper's first status, and every later one.
write_header-IsUncached :
    (w : Writer) (wrote : Bool) (status : ℕ)
    → is_informational status ≡ false
    → IsUncached w wrote
    → IsUncached
        (uncached_write_header (record { inner = w; wrote_header = wrote }) status).inner
        (uncached_write_header (record { inner = w; wrote_header = wrote }) status).wrote_header
unfolding uncached_write_header write_header
write_header-IsUncached w true status final (s, sent, safe) = rw (final, sent) (s, refl, safe)
write_header-IsUncached w false status final nothing = rw final (
  (status, (downgrade w status).header),
  ap (λ s. send_first s status (downgrade w status).header) (downgrade_sent w status ∙ nothing),
  downgrade-IsSafe w status,
)

IsUncached-write :
    (w : Writer) (bytes : List ℕ) → IsUncached w true → IsUncached (write w bytes) true
unfolding write
IsUncached-write w bytes (s, sent, safe) = rw sent (s, refl, safe)

act-IsUncached :
    (w : Writer) (wrote : Bool) (a : Act)
    → IsFinal a
    → IsUncached w wrote
    → IsUncached
        (act (record { inner = w; wrote_header = wrote }) a).inner
        (act (record { inner = w; wrote_header = wrote }) a).wrote_header
unfolding act uncached_write uncached_write_header
act-IsUncached w false (sets_header name value) final kept = kept
act-IsUncached w true (sets_header name value) final kept = kept
act-IsUncached w wrote (writes_header status) final kept =
    write_header-IsUncached w wrote status final kept
act-IsUncached w true (writes bytes) final kept = IsUncached-write w bytes kept
act-IsUncached w false (writes bytes) final kept =
    IsUncached-write _ bytes (write_header-IsUncached w false 200 refl kept)

act_all-IsUncached :
    (w : Writer) (wrote : Bool) (acts : List Act)
    → All IsFinal acts
    → IsUncached w wrote
    → IsUncached
        (act_all (record { inner = w; wrote_header = wrote }) acts).inner
        (act_all (record { inner = w; wrote_header = wrote }) acts).wrote_header
unfolding act_all
act_all-IsUncached w wrote [] final kept = kept
act_all-IsUncached w wrote (a ∷ acts) (now, later) kept =
    act_all-IsUncached (act (record { inner = w; wrote_header = wrote }) a).inner
      (act (record { inner = w; wrote_header = wrote }) a).wrote_header acts later
      (act-IsUncached w wrote a now kept)

sent-IsSafe :
    (w : Writer) (wrote : Bool) (s : ℕ × Dict Text)
    → IsUncached w wrote
    → w.sent ≡ some s
    → IsSafe s
sent-IsSafe w false s nothing e = absurd cc
sent-IsSafe w true s (t, sent, safe) e = subst IsSafe (some-injective (sym sent ∙ e)) safe

-- Whatever headers, statuses and bytes a handler of static files writes, in whatever order, but for
-- informational statuses: if the response that is sent is an error, its Cache-Control is no-store.
pub cache_control_wrapper-IsSafe :
    (path : Text) (acts : List Act) (w : Writer) (status : ℕ) (h : Dict Text)
    → w.sent ≡ none
    → All IsFinal acts
    → (cache_control_wrapper path acts w).sent ≡ some (status, h)
    → 400 ≤ status
    → lookup "Cache-Control" h ≡ some no_store
unfolding cache_control_wrapper
cache_control_wrapper-IsSafe path acts w status h fresh final sent error =
    sent-IsSafe
      (act_all
        (record { inner = set_header w "Cache-Control" (cache_policy path); wrote_header = false })
        acts).inner
      _ (status, h)
      (act_all-IsUncached (set_header w "Cache-Control" (cache_policy path)) false acts final fresh)
      sent error
