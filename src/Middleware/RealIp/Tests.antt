-- ===== src/Middleware/RealIp/Tests.antt =====
-- Addresses of concrete requests.
use go_performance_starter.Prelude.{
  ◌≡◌, refl, Bool, true, ◌&&◌, ◌||◌, Option, none, some, List, [], ◌∷◌, ◌==◌, leb, if◌then◌else◌,
}
use go_performance_starter.Prelude.Text.{Text, codes, text_eq, has_prefix, trim_space, split_on}
use go_performance_starter.Http.{is_empty}
use go_performance_starter.Middleware.RealIp.{
  NetPackage, Request, real_ip, host_only, peer_is_trusted, parse_cidrs, configured_client_ip,
  forwarded_client_ip, first_client, is_client, in_networks,
}
use go_performance_starter.Middleware.RealIp.Spoofing.{real_ip_forged}

abbrev all_digits : Text → Bool
all_digits [] = true
all_digits (c ∷ s) = (c == b'.' || leb b'0' c && leb c b'9') && all_digits s

abbrev before_colon : List Text → Option Text
before_colon (host ∷ port ∷ []) = some host
before_colon _ = none

-- Dotted addresses, and networks that are prefixes of them.
dotted : NetPackage
unfolding split_on has_prefix
dotted = record {
  Ip = Text;
  Net = Text;
  parse_ip = λ s. if is_empty s then none else if all_digits s then some s else none;
  parse_cidr = λ s. if is_empty s then none else if all_digits s then some s else none;
  split_host_port = λ s. before_colon (split_on b':' s);
  contains = λ n ip. has_prefix ip n;
}

-- A request through a proxy at 10.0.0.1 that forged a client address.
abbrev proxied : Request
proxied = record {
  remote_addr = codes "10.0.0.1:443";
  header = λ name.
      if text_eq name (codes "X-Forwarded-For")
      then codes "1.1.1.1, evil , 7.7.7.7, 10.0.0.9"
      else [];
}

direct : Request
direct = record proxied { remote_addr = codes "8.8.8.8:1234" }

all_of_it : Unit {0}
unfolding dotted direct text_eq real_ip host_only peer_is_trusted parse_cidrs configured_client_ip
    forwarded_client_ip first_client is_client in_networks trim_space
all_of_it = tt

real_ip_tests :
    (real_ip dotted (codes "10.0." ∷ []) [] proxied ≡ codes "7.7.7.7")
    × (real_ip dotted (codes "10.0." ∷ []) [] direct ≡ codes "8.8.8.8")
    × (real_ip dotted [] [] proxied ≡ codes "10.0.0.1")
unfolding all_of_it
real_ip_tests = (refl, refl, refl)

real_ip_forged_example : real_ip dotted (codes "10.0." ∷ []) [] proxied ≡ codes "7.7.7.7"
unfolding all_of_it
real_ip_forged_example =
    real_ip_forged dotted (codes "10.0." ∷ []) [] proxied (codes "1.1.1.1, evil ")
      (codes " 7.7.7.7, 10.0.0.9") [] (codes " 7.7.7.7") (codes " 10.0.0.9" ∷ []) refl refl refl
      refl refl (refl, tt)
