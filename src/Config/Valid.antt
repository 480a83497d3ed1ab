-- ===== src/Config/Valid.antt =====
-- What a validated configuration promises to the rest of the program.
use go_performance_starter.Prelude.{
  ℕ, suc, ◌⊎◌, ◌≢◌, ◌≡◌, refl, sym, ap, ◌∙◌, subst, ◌≤◌, Bool, true, false, not, ◌||◌, Option, none,
  some, List, [], ◌∷◌, length, keep, any, if◌then◌else◌, arith, Bool-cases, Option-cases, inl, inr,
}
use go_performance_starter.Prelude.Text.{Text, text_eq, trim_space}
use go_performance_starter.Http.{Result, ok, err, ok-injective, ℤ, pos, negsuc, is_empty}
use go_performance_starter.Middleware.RealIp.{NetPackage, parse_cidrs}
use go_performance_starter.Config.{
  Config, ConfigError, env_invalid, http_port_invalid, database_url_required, supabase_incomplete,
  db_max_conns_invalid, db_min_conns_invalid, max_request_body_bytes_invalid,
  trusted_proxy_cidrs_invalid, guest_mode_incomplete, guest_ttl_invalid, reaper_interval_invalid,
  validate_guest_mode, less, atoi, bad_port, same_test, unless, UrlPackage,
  normalize_public_base_url, set_base, validate_base, bad_cidrs, validate_guests, validate_networks,
  validate, valid_envs,
}

unless-ok :
    {A : Type 0} (bad : Bool) (e : ConfigError) (rest : Result ConfigError A) (a : A)
    → unless bad e rest ≡ ok a
    → (bad ≡ false) × (rest ≡ ok a)
unless-ok true e rest a h = absurd cc
unless-ok false e rest a h = (refl, h)

-- A number of connections, and the like.
abbrev pub IsAtLeast : ℕ → ℤ → Type 0
IsAtLeast n z = (m : ℕ) × (z ≡ pos m) × (n ≤ m)

not_less-IsAtLeast : (n : ℕ) (z : ℤ) → less z (pos n) ≡ false → IsAtLeast n z
not_less-IsAtLeast n (pos m) h = (m, refl, ground (arith, h))
not_less-IsAtLeast n (negsuc m) h = absurd cc

paired_key : (a b : Bool) → same_test a b ≡ true → a ≡ false → b ≡ false
paired_key true b same a = absurd cc
paired_key false b same a = ground (arith, same)

abbrev pub IsPort : Option ℤ → Type 0
IsPort port = (p : ℕ) × (port ≡ some (pos p)) × (1 ≤ p) × (p ≤ 65535)

bad_port-IsPort : (port : Option ℤ) → bad_port port ≡ false → IsPort port
bad_port-IsPort none h = absurd cc
bad_port-IsPort (some (negsuc m)) h = absurd cc
bad_port-IsPort (some (pos m)) h = (m, refl, ground (arith, h), ground (arith, h))

abbrev pub IsOrdered : ℤ → ℤ → Type 0
IsOrdered low high = (a b : ℕ) × (low ≡ pos a) × (high ≡ pos b) × (a ≤ b)

bounds-IsOrdered : (low high : ℤ) → (less low (pos 0) || less high low) ≡ false → IsOrdered low high
bounds-IsOrdered (pos a) (pos b) h = (a, b, refl, refl, ground (arith, h))
bounds-IsOrdered (pos a) (negsuc b) h = absurd (ground (arith, h))
bounds-IsOrdered (negsuc a) high h = absurd cc

unnegate : (b : Bool) → not b ≡ false → b ≡ true
unnegate true h = refl
unnegate false h = absurd cc

true≢false : true ≢ false
true≢false e = cc

module _ (net : NetPackage) where
  -- No entry of a list without bad ones is dropped by the loop that RealIP runs over it.
  length-parse_cidrs :
      (cidrs : List Text)
      → bad_cidrs net cidrs ≡ false
      → length (parse_cidrs net cidrs) ≡ length (keep (λ c. not (is_empty (trim_space c))) cidrs)
  unfolding bad_cidrs parse_cidrs
  length-parse_cidrs [] h = refl
  length-parse_cidrs (c ∷ cidrs) h = elim (Bool-cases (is_empty (trim_space c))) [
    | inl e ↦ rw (e, keep) (length-parse_cidrs cidrs (ground (arith, e, h)))
    | inr e ↦ elim (Option-cases (net.parse_cidr (trim_space c))) [
      | inl f ↦ absurd (ground (arith, e, f, h))
      | inr (n, f) ↦ rw (e, f, keep) (ap suc (length-parse_cidrs cidrs (ground (arith, e, f, h))))
    ]
  ]

  -- Guests are identities of the auth server, which is there, and they expire.
  abbrev pub IsGuestReady : Config → Type 0
  IsGuestReady c =
      c.guest_mode_enabled ≡ true
      → (is_empty c.supabase_url ≡ false)
        × (is_empty c.supabase_anon_key ≡ false)
        × IsAtLeast 1 c.guest_ttl
        × IsAtLeast 1 c.reaper_interval

  guest_mode-IsGuestReady :
      (c d : Config)
      → same_test (is_empty c.supabase_url) (is_empty c.supabase_anon_key) ≡ true
      → validate_guest_mode net c ≡ ok d
      → (d ≡ c) × IsGuestReady c
  unfolding validate_guest_mode
  guest_mode-IsGuestReady c d paired h =
      let (a, h1) = unless-ok (is_empty c.supabase_url) guest_mode_incomplete _ d h in
      let (b, h2) = unless-ok (less c.guest_ttl (pos 1)) guest_ttl_invalid _ d h1 in
      let (f, h3) = unless-ok (less c.reaper_interval (pos 1)) reaper_interval_invalid _ d h2 in
      (
        sym (ok-injective h3),
        λ on. (a, paired_key _ _ paired a, not_less-IsAtLeast 1 _ b, not_less-IsAtLeast 1 _ f),
      )

  guests-IsGuestReady :
      (c d : Config)
      → same_test (is_empty c.supabase_url) (is_empty c.supabase_anon_key) ≡ true
      → validate_guests net c ≡ ok d
      → (d ≡ c) × IsGuestReady c
  unfolding validate_guests
  guests-IsGuestReady c d paired h = elim (Bool-cases c.guest_mode_enabled) [
    | inr e ↦ (
      sym (ok-injective (subst (λ b. (if b then validate_guest_mode net c else ok c) ≡ ok d) e h)),
      λ on. absurd (true≢false (sym on ∙ e)),
    )
    | inl e ↦
        guest_mode-IsGuestReady c d paired
          (subst (λ b. (if b then validate_guest_mode net c else ok c) ≡ ok d) e h)
  ]

  -- The configuration that Validate accepts, and what it left of it.
  pub record IsValid (urls : UrlPackage) (c d : Config) : Type 0 where
    pub port : IsPort (atoi c.http_port)
    pub pool : IsOrdered c.db_min_conns c.db_max_conns
    pub connections : IsAtLeast 1 c.db_max_conns
    pub networks :
        length (parse_cidrs net c.trusted_proxy_cidrs)
        ≡ length (keep (λ e. not (is_empty (trim_space e))) c.trusted_proxy_cidrs)
    pub guests : IsGuestReady c
    pub only_base : d ≡ record c { public_base_url = d.public_base_url }
    pub base :
        ((c.public_base_url ≡ []) × (d.public_base_url ≡ []))
        ⊎ (normalize_public_base_url urls c.public_base_url ≡ some d.public_base_url)

  abbrev IsBased : UrlPackage → Config → Config → Type 0
  IsBased urls c d =
      (d ≡ record c { public_base_url = d.public_base_url })
      × (((c.public_base_url ≡ []) × (d.public_base_url ≡ []))
          ⊎ (normalize_public_base_url urls c.public_base_url ≡ some d.public_base_url))

  set_base-IsBased :
      (urls : UrlPackage) (c d : Config) (o : Option Text)
      → normalize_public_base_url urls c.public_base_url ≡ o
      → set_base urls c o ≡ ok d
      → IsBased urls c d
  set_base-IsBased urls c d none e h = absurd cc
  set_base-IsBased urls c d (some b) e h = subst (IsBased urls c) (ok-injective h) (refl, inr e)

  raw-IsBased :
      (urls : UrlPackage) (c d : Config) (raw : Text)
      → c.public_base_url ≡ raw
      → (if is_empty raw then ok c else set_base urls c (normalize_public_base_url urls raw)) ≡ ok d
      → IsBased urls c d
  raw-IsBased urls c d [] e h = subst (IsBased urls c) (ok-injective h) (refl, inl (e, e))
  raw-IsBased urls c d (x ∷ s) e h =
      set_base-IsBased urls c d _ (ap (normalize_public_base_url urls) e) h

  -- The network and guest checks hand on what they are given.
  networks_after :
      (urls : UrlPackage) (c d : Config) (based : Result ConfigError Config)
      → same_test (is_empty c.supabase_url) (is_empty c.supabase_anon_key) ≡ true
      → validate_base urls c ≡ based
      → validate_networks net based ≡ ok d
      → IsBased urls c d × (bad_cidrs net c.trusted_proxy_cidrs ≡ false) × IsGuestReady c
  unfolding validate_networks validate_base
  networks_after urls c d (err e) paired step h = absurd cc
  networks_after urls c d (ok b) paired step h =
      let (only, how) = raw-IsBased urls c b c.public_base_url refl step in
      let (fine, h1) =
        unless-ok (bad_cidrs net b.trusted_proxy_cidrs) trusted_proxy_cidrs_invalid _ d h in
      let (same, ready) =
        guests-IsGuestReady b d
          (subst (λ v. same_test (is_empty v.supabase_url) (is_empty v.supabase_anon_key) ≡ true)
            (sym only) paired)
          h1 in
      (
        subst (IsBased urls c) (sym same) (only, how),
        subst (λ v. bad_cidrs net v.trusted_proxy_cidrs ≡ false) only fine,
        subst IsGuestReady only ready,
      )

-- A configuration that passes Validate has a port between 1 and 65535, at least one connection and
-- bounds of the pool in order; RealIP drops no entry of its trusted networks but the blank ones; guest
-- mode, if it is on, has an auth server with a key, and guests and the passes of the reaper that expire
-- after a positive time. Only the public base URL is written: it stays empty, or is what the
-- normalization gives.
pub validate-IsValid :
    (urls : UrlPackage) (net : NetPackage) (c d : Config)
    → validate urls net c ≡ ok d
    → IsValid net urls c d
unfolding validate
validate-IsValid urls net c d h =
    let (a1, h1) = unless-ok (not (any (text_eq c.env) valid_envs)) env_invalid _ d h in
    let (a2, h2) = unless-ok (bad_port (atoi c.http_port)) http_port_invalid _ d h1 in
    let (a3, h3) = unless-ok (is_empty c.database_url) database_url_required _ d h2 in
    let (a4, h4) =
      unless-ok (not (same_test (is_empty c.supabase_url) (is_empty c.supabase_anon_key)))
        supabase_incomplete _ d h3 in
    let (a5, h5) = unless-ok (less c.db_max_conns (pos 1)) db_max_conns_invalid _ d h4 in
    let (a6, h6) =
      unless-ok (less c.db_min_conns (pos 0) || less c.db_max_conns c.db_min_conns)
        db_min_conns_invalid _ d h5 in
    let (a7, h7) =
      unless-ok (less c.max_request_body_bytes (pos 1)) max_request_body_bytes_invalid _ d h6 in
    let ((only, how), fine, ready) = networks_after net urls c d _ (unnegate _ a4) refl h7 in
    record {
      port = bad_port-IsPort _ a2;
      pool = bounds-IsOrdered _ _ a6;
      connections = not_less-IsAtLeast 1 _ a5;
      networks = length-parse_cidrs net c.trusted_proxy_cidrs fine;
      guests = ready;
      only_base = only;
      base = how;
    }
