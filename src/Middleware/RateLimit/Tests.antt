-- ===== src/Middleware/RateLimit/Tests.antt =====
-- The rate limiter at concrete requests.
use text.Mathlib.TextEquality.{eq_iff}
use go_performance_starter.Prelude.{
  ℕ, zero, suc, ◌*◌, ◌≡◌, refl, Option, none, some, List, [], ◌∷◌, arith, true, false,
}
use go_performance_starter.Prelude.Dict.{lookup, insert}
use go_performance_starter.Middleware.RateLimit.{
  TokenBucket, LimiterEntry, LimiterStore, new_limiter_store, get, take, handle, second, serve,
}
use go_performance_starter.Middleware.RateLimit.Store.{IsStore, new_limiter_store-IsStore}
use go_performance_starter.Middleware.RateLimit.Isolation.{
  Handled, handle-Handled, request, sweep, Op, run, run-IsStore,
}
use go_performance_starter.Middleware.RateLimit.Refusal.{IsDocumented}

-- A bucket that never refills: a reservation is refused at burst zero, and waits two seconds where
-- no token is left. A limiter is its burst and its tokens.
abbrev reserve : ℕ × ℕ → (ℕ × ℕ) × Option ℕ
reserve (zero, tokens) = ((zero, tokens), none)
reserve (suc burst, zero) = ((suc burst, zero), some (2 * second))
reserve (suc burst, suc tokens) = ((suc burst, tokens), some 0)

abbrev cancel : ℕ × ℕ → Option ℕ → ℕ × ℕ
cancel (burst, tokens) none = (burst, tokens)
cancel (burst, tokens) (some zero) = (burst, suc tokens)
cancel (burst, tokens) (some (suc delay)) = (burst, tokens)

abbrev dry : TokenBucket
dry = record {
  Rate = Unit {0};
  Limiter = ℕ × ℕ;
  Reservation = Option ℕ;
  Tokens = ℕ;
  new_limiter = λ _ burst. (burst, burst);
  reserve_n = λ l _. reserve l;
  granted = λ r. elim r [ none ↦ false | some d ↦ true ];
  delay_from = λ r _. elim r [ none ↦ 0 | some d ↦ d ];
  cancel_at = λ l r _. cancel l r;
  tokens_at = λ l _. l.1;
}

dry-cancelled :
    (l : ℕ × ℕ) → dry.granted (reserve l).1 ≡ true → (cancel (reserve l).0 (reserve l).1).1 ≡ l.1
dry-cancelled (zero, tokens) h = refl
dry-cancelled (suc burst, zero) h = refl
dry-cancelled (suc burst, suc tokens) h = refl

dry-not_granted : (l : ℕ × ℕ) → dry.granted (reserve l).1 ≡ false → (reserve l).0.1 ≡ l.1
dry-not_granted (zero, tokens) h = refl
dry-not_granted (suc burst, zero) h = refl
dry-not_granted (suc burst, suc tokens) h = cc

dry-IsDocumented : IsDocumented dry
dry-IsDocumented = record {
  cancelled = λ l now t later h. dry-cancelled l h;
  not_granted = λ l now t later h. dry-not_granted l h;
}

abbrev fresh : LimiterStore dry
fresh = record { entries = []; rps = tt; burst = 1; heap = [] }

handle_test :
    (handle dry fresh "1.2.3.4" 5 6
      ≡ some (
        record {
          entries = ("1.2.3.4", record { limiter = 0; last_seen = 5 }) ∷ [];
          rps = tt;
          burst = 1;
          heap = (1, 0) ∷ [];
        },
        serve,
      ))
unfolding handle get lookup insert take
handle_test = refl

fresh-IsStore : IsStore fresh
unfolding new_limiter_store
fresh-IsStore = new_limiter_store-IsStore {bucket = dry} tt 1

handle-Handled_example : Handled {bucket = dry} fresh "1.2.3.4" 5 6
handle-Handled_example = handle-Handled {bucket = dry} fresh "1.2.3.4" 5 6 fresh-IsStore

abbrev ops : List Op
ops =
    request "a" 1 2
    ∷ request "b" 3 4
    ∷ sweep 900000000000
    ∷ request "a" 900000000001 900000000002
    ∷ []

run-IsStore_example :
    (t : LimiterStore dry) × (run (some (new_limiter_store dry tt 1)) ops ≡ some t) × IsStore t
run-IsStore_example = run-IsStore {bucket = dry} tt 1 ops

abbrev one : LimiterStore dry
one = record fresh {
  entries = ("a", record { limiter = 0; last_seen = 5 }) ∷ [];
  heap = (1, 1) ∷ [];
}

abbrev entry : LimiterEntry dry
entry = record { limiter = 0; last_seen = 5 }

one-IsStore : IsStore one
unfolding lookup
one-IsStore = record {
  unique = (refl, tt);
  in_range = λ ip e h. ground arith;
  apart = λ ip j e f h k same. ground (arith, eq_iff "a" ip, eq_iff "a" j);
}
