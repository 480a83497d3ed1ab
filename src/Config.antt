-- ===== src/Config.antt =====
-- internal/config/config.go: the configuration and its validation at boot. net/url is a parameter, as
-- are the parsers of package net. Numbers are Go's, without their bounds.
pub mod Valid
mod Tests
use go_performance_starter.Prelude.{
  ℕ, ◌+◌, ◌-◌, ◌*◌, ◌^◌, Bool, true, false, not, ◌&&◌, ◌||◌, Option, none, some, List, [], ◌∷◌,
  ◌==◌, ltb, leb, any, if◌then◌else◌,
}
use go_performance_starter.Prelude.Text.{Text, codes, text_eq, trim_space, trim_right_by}
use go_performance_starter.Http.{Result, ok, err, ℤ, pos, negsuc, is_empty}
use go_performance_starter.Middleware.RealIp.{NetPackage}

-- Config: the fields that Validate reads. The others are handed on as they are.
pub record Config : Type 0 where
  pub env : Text
  pub http_port : Text
  pub database_url : Text
  pub supabase_url : Text
  pub supabase_anon_key : Text
  pub trusted_proxy_cidrs : List Text
  pub max_request_body_bytes : ℤ
  pub public_base_url : Text
  pub db_max_conns : ℤ
  pub db_min_conns : ℤ
  pub guest_mode_enabled : Bool
  pub guest_ttl : ℤ
  pub reaper_interval : ℤ

-- The variable that an error of Validate names.
pub data ConfigError : Type 0 where
  env_invalid : ConfigError
  http_port_invalid : ConfigError
  database_url_required : ConfigError
  supabase_incomplete : ConfigError
  db_max_conns_invalid : ConfigError
  db_min_conns_invalid : ConfigError
  max_request_body_bytes_invalid : ConfigError
  public_base_url_invalid : ConfigError
  trusted_proxy_cidrs_invalid : ConfigError
  guest_mode_incomplete : ConfigError
  guest_ttl_invalid : ConfigError
  reaper_interval_invalid : ConfigError

-- validEnvs
abbrev pub valid_envs : List Text
valid_envs = codes "development" ∷ codes "test" ∷ codes "staging" ∷ codes "production" ∷ []

-- a < b
abbrev pub less : ℤ → ℤ → Bool
less (pos a) (pos b) = ltb a b
less (pos a) (negsuc b) = false
less (negsuc a) (pos b) = true
less (negsuc a) (negsuc b) = ltb b a

abbrev digit_added : Option ℕ → ℕ → Option ℕ
digit_added none c = none
digit_added (some n) c = if leb b'0' c && leb c b'9' then some (n * 10 + (c - b'0')) else none

-- The value of a sequence of digits, after `n`.
unfoldable pub digits_from : Option ℕ → Text → Option ℕ
digits_from n [] = n
digits_from n (c ∷ s) = digits_from (digit_added n c) s

abbrev non_empty_digits : Text → Option ℕ
non_empty_digits [] = none
non_empty_digits (c ∷ s) = digits_from (some 0) (c ∷ s)

abbrev negated : ℕ → ℤ
negated n = if ltb 0 n then negsuc (n - 1) else pos 0

abbrev in_range : Bool → Option ℕ → Option ℤ
in_range minus none = none
in_range true (some n) = if leb n (2 ^ 63) then some (negated n) else none
in_range false (some n) = if ltb n (2 ^ 63) then some (pos n) else none

-- strconv.Atoi; `none` is an error
unfoldable pub atoi : Text → Option ℤ
unfolding digits_from
atoi [] = none
atoi (c ∷ s) =
    if c == b'-'
    then in_range true (non_empty_digits s)
    else if c == b'+'
    then in_range false (non_empty_digits s)
    else in_range false (non_empty_digits (c ∷ s))

-- What is read of a url.URL, url.Parse, and u.String() with another path.
pub record UrlPackage : Type 1 where
  pub Url : Type 0
  pub parse : Text → Option Url
  pub scheme : Url → Text
  pub host : Url → Text
  pub raw_query : Url → Text
  pub fragment : Url → Text
  pub path : Url → Text
  pub with_path : Url → Text → Url
  pub string : Url → Text

abbrev bad_port : Option ℤ → Bool
bad_port none = true
bad_port (some port) = less port (pos 1) || less (pos 65535) port

abbrev same_test : Bool → Bool → Bool
same_test true b = b
same_test false b = not b

-- One guard of Validate, and what follows it.
abbrev pub unless {ℓ} :
    {A : Type ℓ} → Bool → ConfigError → Result ConfigError A → Result ConfigError A
unless bad e rest = if bad then err e else rest

module _ (urls : UrlPackage) where
  open urls use {Url, parse, scheme, host, raw_query, fragment, path, with_path, string}

  unfoldable pub normalized : Url → Option Text
  normalized u =
      if not (text_eq (scheme u) (codes "http")) && not (text_eq (scheme u) (codes "https"))
      then none
      else if is_empty (host u)
      then none
      else if not (is_empty (raw_query u)) || not (is_empty (fragment u))
      then none
      else some (string (with_path u (trim_right_by (λ c. c == b'/') (path u))))

  -- normalizePublicBaseURL; `none` is an error
  unfoldable pub normalize_public_base_url : Text → Option Text
  normalize_public_base_url raw = elim (parse (trim_space raw)) [
    | none ↦ none
    | some u ↦ normalized u
  ]

  abbrev set_base : Config → Option Text → Result ConfigError Config
  set_base c none = err public_base_url_invalid
  set_base c (some base) = ok (record c { public_base_url = base })

  -- Validate's step for PUBLIC_BASE_URL, the one that writes
  unfoldable pub validate_base : Config → Result ConfigError Config
  validate_base c =
      if is_empty c.public_base_url
      then ok c
      else set_base c (normalize_public_base_url c.public_base_url)

module _ (net : NetPackage) where
  abbrev bad_entry : Text → Bool
  bad_entry cidr =
      not (is_empty (trim_space cidr))
      && elim (net.parse_cidr (trim_space cidr)) [ none ↦ true | some n ↦ false ]

  -- The loop of Validate over the trusted networks: is there an entry that does not parse?
  unfoldable pub bad_cidrs : List Text → Bool
  bad_cidrs cidrs = any bad_entry cidrs

  -- Validate's guards for guest mode
  unfoldable pub validate_guest_mode : Config → Result ConfigError Config
  validate_guest_mode c = unless (is_empty c.supabase_url) guest_mode_incomplete (
      unless (less c.guest_ttl (pos 1)) guest_ttl_invalid
        (unless (less c.reaper_interval (pos 1)) reaper_interval_invalid (ok c)))

  unfoldable pub validate_guests : Config → Result ConfigError Config
  validate_guests c = if c.guest_mode_enabled then validate_guest_mode c else ok c

  unfoldable pub validate_networks : Result ConfigError Config → Result ConfigError Config
  validate_networks (err e) = err e
  validate_networks (ok c) =
      unless (bad_cidrs c.trusted_proxy_cidrs) trusted_proxy_cidrs_invalid (validate_guests c)

-- Validate: the configuration that it leaves behind, or its error
unfoldable pub validate : UrlPackage → NetPackage → Config → Result ConfigError Config
validate urls net c = unless (not (any (text_eq c.env) valid_envs)) env_invalid (
    unless (bad_port (atoi c.http_port)) http_port_invalid (
      unless (is_empty c.database_url) database_url_required (
        unless (not (same_test (is_empty c.supabase_url) (is_empty c.supabase_anon_key)))
          supabase_incomplete
          (unless (less c.db_max_conns (pos 1)) db_max_conns_invalid (
            unless (less c.db_min_conns (pos 0) || less c.db_max_conns c.db_min_conns)
              db_min_conns_invalid
              (unless (less c.max_request_body_bytes (pos 1)) max_request_body_bytes_invalid
                (validate_networks net (validate_base urls c))))))))
