-- ===== src/Middleware/RealIp.antt =====
-- internal/middleware/realip.go: which address a request comes from. Texts are lists of code points.
-- The parsers of package net and the test of an address against a network are parameters.
pub mod Spoofing
mod Tests
use go_performance_starter.Prelude.{
  ℕ, ◌≡◌, Bool, true, false, not, ◌||◌, Option, none, some, List, [], ◌∷◌, if◌then◌else◌,
}
use go_performance_starter.Prelude.Text.{Text, codes, trim_space, split_on}
use go_performance_starter.Http.{is_empty}
use mathlib.Core.List.{reverse}

pub record NetPackage : Type 1 where
  pub Ip : Type 0
  pub Net : Type 0
  pub parse_ip : Text → Option Ip
  pub parse_cidr : Text → Option Net
  pub split_host_port : Text → Option Text
  pub contains : Net → Ip → Bool

-- What is read of a request: its RemoteAddr, and r.Header.Get by name.
pub record Request : Type 0 where
  pub remote_addr : Text
  pub header : Text → Text

abbrev or_else {ℓ} : {A : Type ℓ} → Option A → A → A
or_else none a = a
or_else (some b) a = b

module _ (net : NetPackage) where
  open net use {Ip, Net, parse_ip, parse_cidr, split_host_port, contains}

  -- configuredClientIP; `none` is the empty result
  unfoldable pub configured_client_ip : Request → Text → Option Text
  configured_client_ip r name =
      let v = trim_space (r.header name) in
      if is_empty name
      then none
      else if is_empty v
      then none
      else elim (parse_ip v) [ none ↦ none | some ip ↦ some v ]

  abbrev add_net : Option Net → List Net → List Net
  add_net none nets = nets
  add_net (some n) nets = n ∷ nets

  -- parseCIDRs
  unfoldable pub parse_cidrs : List Text → List Net
  parse_cidrs [] = []
  parse_cidrs (c ∷ cidrs) =
      let rest = parse_cidrs cidrs in
      let entry = trim_space c in if is_empty entry then rest else add_net (parse_cidr entry) rest

  -- hostOnly
  unfoldable pub host_only : Text → Text
  host_only addr = or_else (split_host_port addr) addr

  -- the loop of peerIsTrusted
  unfoldable pub in_networks : List Net → Ip → Bool
  in_networks [] ip = false
  in_networks (n ∷ nets) ip = contains n ip || in_networks nets ip

  -- peerIsTrusted
  unfoldable pub peer_is_trusted : Text → List Net → Bool
  peer_is_trusted peer trusted = elim (parse_ip peer) [
    | none ↦ false
    | some ip ↦ in_networks trusted ip
  ]

  -- An entry that the loop of forwardedClientIP returns: it parses, and is none of our proxies.
  unfoldable pub is_client : List Net → Text → Bool
  is_client trusted entry = elim (parse_ip entry) [
    | none ↦ false
    | some ip ↦ not (peer_is_trusted entry trusted)
  ]

  -- for _, raw := range slices.Backward(entries); the entries come in the order of the loop
  unfoldable pub first_client : List Net → List Text → Option Text
  first_client trusted [] = none
  first_client trusted (raw ∷ entries) =
      let rest = first_client trusted entries in
      if is_client trusted (trim_space raw) then some (trim_space raw) else rest

  abbrev non_empty : Text → Option Text
  non_empty s = if is_empty s then none else some s

  abbrev or_next : Option Text → Option Text → Option Text
  or_next none next = next
  or_next (some v) next = some v

  -- forwardedClientIP; `none` is the empty result
  unfoldable pub forwarded_client_ip : Request → List Net → Option Text
  forwarded_client_ip r trusted =
      let xff = r.header (codes "X-Forwarded-For") in
      or_next (if is_empty xff then none else first_client trusted (reverse (split_on b',' xff))) (
        or_next (non_empty (trim_space (r.header (codes "X-Real-IP"))))
          (non_empty (trim_space (r.header (codes "True-Client-IP")))))

  -- RealIP: the RemoteAddr that the next handler sees
  unfoldable pub real_ip : List Text → Text → Request → Text
  real_ip cidrs client_ip_header r =
      let trusted = parse_cidrs cidrs in
      let ip = host_only r.remote_addr in
      if peer_is_trusted ip trusted
      then or_else
          (or_next (configured_client_ip r client_ip_header) (forwarded_client_ip r trusted)) ip
      else ip
