-- ===== src/Middleware/RateLimit/Store.antt =====
-- The store of shared buckets: its invariant, and how an address sees it across `get` and a write
-- through a pointer.
use text.Mathlib.Text.{◌==◌ as str_eq}
use text.Mathlib.TextEquality.{eq_iff}
use text.Mathlib.TextPositions.{eq_refl}
use go_performance_starter.Prelude.{
  ℕ, ◌<◌, ◌≡◌, refl, sym, ap, ◌∙◌, ◌≢◌, inl, inr, Bool, String, Option, none, some, List, [], ◌∷◌,
  ◌++◌, arith, if◌then◌else◌, length, set, get_elem?, length-set, length-append, get_elem?-set_self,
  get_elem?-set_ne, get_elem?-append_left, get_elem?-append_end, get_elem?_in_range, Bool-cases,
}
use go_performance_starter.Prelude.Dict.{lookup, lookup-insert, IsUnique, IsUnique-insert}
use go_performance_starter.Middleware.RateLimit.{
  TokenBucket, LimiterEntry, LimiterStore, new_limiter_store, get_entry, get, write,
}

module _ {bucket : TokenBucket} where
  open bucket use {Rate, Limiter, new_limiter}

  -- The pointers of the map are in range, and no two addresses share one.
  pub record IsStore (s : LimiterStore bucket) : Type 0 where
    pub unique : IsUnique s.entries
    pub in_range :
        (ip : String) (e : LimiterEntry bucket)
        → lookup ip s.entries ≡ some e
        → e.limiter < length s.heap
    pub apart :
        (ip j : String) (e f : LimiterEntry bucket)
        → lookup ip s.entries ≡ some e
        → lookup j s.entries ≡ some f
        → e.limiter ≡ f.limiter
        → ip ≡ j

  abbrev deref : List Limiter → Option (LimiterEntry bucket) → Option Limiter
  deref heap none = none
  deref heap (some e) = get_elem? heap e.limiter

  -- The abstract view: the bucket of an address.
  abbrev pub bucket_of : LimiterStore bucket → String → Option Limiter
  bucket_of s ip = deref s.heap (lookup ip s.entries)

  -- The bucket that a request of this address draws on: a full one at first sight.
  abbrev pub current : LimiterStore bucket → String → Limiter
  current s ip = elim (bucket_of s ip) [ none ↦ new_limiter s.rps s.burst | some lim ↦ lim ]

  pub new_limiter_store-IsStore :
      (rps : Rate) (burst : ℕ) → IsStore (new_limiter_store bucket rps burst)
  unfolding new_limiter_store lookup
  new_limiter_store-IsStore rps burst = record {
    unique = tt;
    in_range = λ ip e h. cc;
    apart = λ ip j e f h k same. cc;
  }

  deref-append :
      (heap : List Limiter) (lim : Limiter) (o : Option (LimiterEntry bucket))
      → ((e : LimiterEntry bucket) → o ≡ some e → e.limiter < length heap)
      → deref (heap ++ lim ∷ []) o ≡ deref heap o
  deref-append heap lim none h = refl
  deref-append heap lim (some e) h = get_elem?-append_left heap (lim ∷ []) e.limiter (h e refl)

  deref-set :
      (heap : List Limiter) (ptr : ℕ) (lim : Limiter) (o : Option (LimiterEntry bucket))
      → ((e : LimiterEntry bucket) → o ≡ some e → ptr ≢ e.limiter)
      → deref (set heap ptr lim) o ≡ deref heap o
  deref-set heap ptr lim none h = refl
  deref-set heap ptr lim (some e) h = get_elem?-set_ne heap ptr e.limiter lim (h e refl)

  -- A known address keeps its pointer.
  module _ (s : LimiterStore bucket) (ip : String) (now : ℕ) (v : IsStore s) where
    get_entry_known-IsStore :
        (e : LimiterEntry bucket)
        → lookup ip s.entries ≡ some e
        → IsStore (get_entry bucket s ip now (some e)).0
    unfolding get_entry
    get_entry_known-IsStore e found = record {
      unique = IsUnique-insert ip _ s.entries v.unique;
      in_range = λ j f.
          rw lookup-insert
            (λ h. ground (arith, eq_iff ip j, v.in_range ip e found, v.in_range j f));
      apart = λ i j f g. rw lookup-insert (λ h. rw lookup-insert (λ k same.
          ground (
            arith,
            eq_iff ip i,
            eq_iff ip j,
            v.apart i j f g,
            v.apart ip j e g,
            v.apart i ip f e,
          )));
    }

    get_entry_new-IsStore : lookup ip s.entries ≡ none → IsStore (get_entry bucket s ip now none).0
    unfolding get_entry
    get_entry_new-IsStore found = record {
      unique = IsUnique-insert ip _ s.entries v.unique;
      in_range = λ j f. rw lookup-insert (λ h. ground (
        arith,
        eq_iff ip j,
        v.in_range j f,
        length-append s.heap (new_limiter s.rps s.burst ∷ []),
      ));
      apart = λ i j f g. rw lookup-insert (λ h. rw lookup-insert (λ k same.
          ground
            (arith, eq_iff ip i, eq_iff ip j, v.apart i j f g, v.in_range i f, v.in_range j g)));
    }

    get_entry-IsStore :
        (o : Option (LimiterEntry bucket))
        → lookup ip s.entries ≡ o
        → IsStore (get_entry bucket s ip now o).0
    get_entry-IsStore none e = get_entry_new-IsStore e
    get_entry-IsStore (some x) e = get_entry_known-IsStore x e

    current_new : lookup ip s.entries ≡ none → current s ip ≡ new_limiter s.rps s.burst
    current_new e = rw (e, current)

    current_known :
        {x : LimiterEntry bucket} {lim : Limiter}
        → lookup ip s.entries ≡ some x
        → get_elem? s.heap x.limiter ≡ some lim
        → current s ip ≡ lim
    current_known e found = rw (e, found, current)

    -- After the lookup, the address has a bucket at the pointer, and every other one has its old bucket.
    get_entry_views :
        (o : Option (LimiterEntry bucket))
        → lookup ip s.entries ≡ o
        → (get_elem? (get_entry bucket s ip now o).0.heap (get_entry bucket s ip now o).1
            ≡ some (current s ip))
          × ((k : String)
              → bucket_of (get_entry bucket s ip now o).0 k
                ≡ (if str_eq ip k then some (current s ip) else bucket_of s k))
    unfolding get_entry
    get_entry_views none e = (
      rw (current_new e) (get_elem?-append_end s.heap _),
      λ k. rw lookup-insert (elim (Bool-cases (str_eq ip k)) [
        | inl same ↦ rw same (rw (current_new e) (get_elem?-append_end s.heap _))
        | inr other ↦
            rw other
              (deref-append s.heap (new_limiter s.rps s.burst) (lookup k s.entries) (v.in_range k))
      ]),
    )
    get_entry_views (some x) e =
        let (lim, found) = get_elem?_in_range s.heap x.limiter (v.in_range ip x e) in
        (
          found ∙ ap some (sym (current_known e found)),
          λ k. rw lookup-insert (elim (Bool-cases (str_eq ip k)) [
            | inl same ↦ rw same (found ∙ ap some (sym (current_known e found)))
            | inr other ↦ rw other
          ]),
        )

  get_entry_pointer :
      (s : LimiterStore bucket) (ip : String) (now : ℕ) (o : Option (LimiterEntry bucket))
      → (e : LimiterEntry bucket) × (lookup ip (get_entry bucket s ip now o).0.entries ≡ some e)
        × (e.limiter ≡ (get_entry bucket s ip now o).1)
  unfolding get_entry
  get_entry_pointer s ip now none = (
    record { limiter = length s.heap; last_seen = now },
    lookup-insert ip ip _ s.entries ∙ rw (eq_refl ip),
    refl,
  )
  get_entry_pointer s ip now (some x) =
      (record x { last_seen = now }, lookup-insert ip ip _ s.entries ∙ rw (eq_refl ip), refl)

  -- Writing through a pointer.
  pub write-IsStore :
      (s : LimiterStore bucket) (ptr : ℕ) (r : Limiter × (ℕ × Bool))
      → IsStore s
      → IsStore (write bucket s ptr r).0
  unfolding write
  write-IsStore s ptr (lim, verdict) v = record {
    unique = v.unique;
    in_range = λ ip e h. rw length-set (v.in_range ip e h);
    apart = v.apart;
  }

  -- One request: the state, the pointer and the entry of the address that `get` leaves.
  module _ (s : LimiterStore bucket) (ip : String) (seen : ℕ) (v : IsStore s) where
    pub get-IsStore : IsStore (get bucket s ip seen).0
    unfolding get
    get-IsStore = get_entry-IsStore s ip seen v (lookup ip s.entries) refl

    pub get_views :
        (get_elem? (get bucket s ip seen).0.heap (get bucket s ip seen).1 ≡ some (current s ip))
        × ((k : String)
            → bucket_of (get bucket s ip seen).0 k
              ≡ (if str_eq ip k then some (current s ip) else bucket_of s k))
    unfolding get
    get_views = get_entry_views s ip seen v (lookup ip s.entries) refl

    pub get_pointer :
        (e : LimiterEntry bucket) × (lookup ip (get bucket s ip seen).0.entries ≡ some e)
        × (e.limiter ≡ (get bucket s ip seen).1)
    unfolding get
    get_pointer = get_entry_pointer s ip seen (lookup ip s.entries)

  -- The write of one request is seen by its own address and by no other.
  pub write_views :
      (s : LimiterStore bucket) (ip : String) (e : LimiterEntry bucket) (lim : Limiter)
      (r : ℕ × Bool)
      → IsStore s
      → lookup ip s.entries ≡ some e
      → (k : String)
      → bucket_of (write bucket s e.limiter (lim, r)).0 k
        ≡ (if str_eq ip k then some lim else bucket_of s k)
  unfolding write
  write_views s ip e lim r v found k = elim (Bool-cases (str_eq ip k)) [
    | inl same ↦
        rw (same, ← (eq_iff ip k).0 same, found)
          (get_elem?-set_self s.heap e.limiter lim (v.in_range ip e found))
    | inr other ↦ rw other (
        deref-set s.heap e.limiter lim (lookup k s.entries) (λ f here same.
          cc
            (v.apart ip k e f found here same, (eq_iff ip k).1 (v.apart ip k e f found here same))))
  ]
