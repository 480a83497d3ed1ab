-- ===== src/Config/Tests.antt =====
-- Configurations that pass, and one for each error.
use go_performance_starter.Prelude.{◌≡◌, refl, true, none, some, [], ◌∷◌, if◌then◌else◌}
use go_performance_starter.Prelude.Text.{Text, codes, text_eq, trim_space}
use go_performance_starter.Http.{ok, err, pos}
use go_performance_starter.Middleware.RealIp.{NetPackage}
use go_performance_starter.Config.{
  Config, UrlPackage, atoi, digits_from, normalized, normalize_public_base_url, validate_base,
  bad_cidrs, validate_guest_mode, validate_guests, validate_networks, validate, http_port_invalid,
  supabase_incomplete, guest_ttl_invalid, trusted_proxy_cidrs_invalid,
}
use go_performance_starter.Config.Valid.{IsValid, validate-IsValid}

-- A URL that is nothing but an https host and a path; the text is the path.
abbrev plain_urls : UrlPackage
plain_urls = record {
  Url = Text;
  parse = λ s. some s;
  scheme = λ u. codes "https";
  host = λ u. codes "h";
  raw_query = λ u. [];
  fragment = λ u. [];
  path = λ u. u;
  with_path = λ u p. p;
  string = λ u. u;
}

abbrev any_net : NetPackage
any_net = record {
  Ip = Text;
  Net = Text;
  parse_ip = λ s. some s;
  parse_cidr = λ s. if text_eq s (codes "bad") then none else some s;
  split_host_port = λ s. none;
  contains = λ n ip. text_eq n ip;
}

abbrev config : Config
config = record {
  env = codes "production";
  http_port = codes "4000";
  database_url = codes "postgres";
  supabase_url = codes "s";
  supabase_anon_key = codes "k";
  trusted_proxy_cidrs = codes " " ∷ codes "10.0.0.0/8" ∷ [];
  max_request_body_bytes = pos 1048576;
  public_base_url = codes "/app//";
  db_max_conns = pos 25;
  db_min_conns = pos 2;
  guest_mode_enabled = true;
  guest_ttl = pos 720;
  reaper_interval = pos 1;
}

all_of_it : Unit {0}
unfolding text_eq trim_space atoi digits_from normalized normalize_public_base_url validate_base
    bad_cidrs validate_guest_mode validate_guests validate_networks validate
all_of_it = tt

validate_tests :
    (validate plain_urls any_net config ≡ ok (record config { public_base_url = codes "/app" }))
    × (validate plain_urls any_net (record config { http_port = codes "65536" })
        ≡ err http_port_invalid)
    × (validate plain_urls any_net (record config { http_port = codes "-1" })
        ≡ err http_port_invalid)
    × (validate plain_urls any_net (record config { supabase_url = [] }) ≡ err supabase_incomplete)
    × (validate plain_urls any_net (record config { guest_ttl = pos 0 }) ≡ err guest_ttl_invalid)
    × (validate plain_urls any_net (record config { trusted_proxy_cidrs = codes "bad" ∷ [] })
        ≡ err trusted_proxy_cidrs_invalid)
unfolding all_of_it
validate_tests = (refl, refl, refl, refl, refl, refl)

validate-IsValid_example :
    IsValid any_net plain_urls config (record config { public_base_url = codes "/app" })
unfolding all_of_it
validate-IsValid_example =
    validate-IsValid plain_urls any_net config (record config { public_base_url = codes "/app" })
      refl
