-- ===== src/Middleware/RealIp/Spoofing.antt =====
-- What a client can and cannot do to the address that the server sees.
use mathlib.Core.List.{reverse, reverse-append, reverse-cons}
use go_performance_starter.Prelude.{
  ℕ, ◌≡◌, refl, ◌∙◌, true, false, none, some, List, [], ◌∷◌, ◌++◌, arith, All, All-append,
  append_assoc,
}
use go_performance_starter.Prelude.Text.{Text, codes, trim_space, split_on, split_on-append}
use go_performance_starter.Http.{is_empty}
use go_performance_starter.Middleware.RealIp.{
  NetPackage, Request, configured_client_ip, parse_cidrs, host_only, in_networks, peer_is_trusted,
  is_client, first_client, forwarded_client_ip, real_ip,
}

All-reverse : (P : Text → Type 0) (xs : List Text) → All P xs → All P (reverse xs)
All-reverse P [] h = tt
All-reverse P (x ∷ xs) (p, h) =
    rw (reverse-cons x xs) (All-append P (reverse xs) (x ∷ []) (All-reverse P xs h, (p, tt)))

not_empty : (s : Text) (c : ℕ) (t : Text) → is_empty (s ++ c ∷ t) ≡ false
not_empty [] c t = refl
not_empty (d ∷ s) c t = refl

module _ (net : NetPackage) where
  -- A direct peer outside the trusted networks is taken at its own address, whatever headers it
  -- sends and whatever client-IP header is configured.
  pub real_ip-untrusted :
      (cidrs : List Text) (name : Text) (r : Request)
      → peer_is_trusted net (host_only net r.remote_addr) (parse_cidrs net cidrs) ≡ false
      → real_ip net cidrs name r ≡ host_only net r.remote_addr
  unfolding real_ip
  real_ip-untrusted cidrs name r h = rw h

  -- No entry of the configuration names a network.
  abbrev pub NamesNothing : List Text → Type 0
  NamesNothing cidrs = All (λ c. net.parse_cidr (trim_space c) ≡ none) cidrs

  parse_cidrs-nil : (cidrs : List Text) → NamesNothing cidrs → parse_cidrs net cidrs ≡ []
  unfolding parse_cidrs
  parse_cidrs-nil [] h = refl
  parse_cidrs-nil (c ∷ cidrs) (e, h) = ground (arith, parse_cidrs-nil cidrs h)

  -- With no trusted network configured (nothing, blanks and entries that do not parse), no forwarded
  -- header is ever used.
  pub real_ip_default :
      (cidrs : List Text) (name : Text) (r : Request)
      → NamesNothing cidrs
      → real_ip net cidrs name r ≡ host_only net r.remote_addr
  unfolding peer_is_trusted in_networks
  real_ip_default cidrs name r h =
      real_ip-untrusted cidrs name r (rw (parse_cidrs-nil cidrs h) (ground arith))

  module _ (trusted : List net.Net) where
    first_client-append :
        (later earlier : List Text) (v : Text)
        → first_client net trusted later ≡ some v
        → first_client net trusted (later ++ earlier) ≡ some v
    unfolding first_client
    first_client-append [] earlier v h = cc
    first_client-append (raw ∷ later) earlier v h =
        ground (arith, first_client-append later earlier v)

    first_client-skip :
        (later earlier : List Text)
        → All (λ raw. is_client net trusted (trim_space raw) ≡ false) later
        → first_client net trusted (later ++ earlier) ≡ first_client net trusted earlier
    unfolding first_client
    first_client-skip [] earlier h = refl
    first_client-skip (raw ∷ later) earlier (e, h) = rw e (first_client-skip later earlier h)

    -- The loop over the entries from the right stops at the last one that names a client.
    first_client-reverse :
        (before : List Text) (raw : Text) (hops : List Text)
        → is_client net trusted (trim_space raw) ≡ true
        → All (λ hop. is_client net trusted (trim_space hop) ≡ false) hops
        → first_client net trusted (reverse (before ++ raw ∷ hops)) ≡ some (trim_space raw)
    unfolding first_client
    first_client-reverse before raw hops here skipped =
        rw (reverse-append before (raw ∷ hops), reverse-cons raw hops, append_assoc)
          (first_client-skip (reverse hops) _ (All-reverse _ hops skipped) ∙ rw here)

  -- Behind a trusted proxy, and where the configured header gives no address, the client's address is
  -- the last entry of X-Forwarded-For that parses and is none of the trusted networks. The text that
  -- stood in the header before the proxies appended theirs makes no difference, commas included.
  pub real_ip_forged :
      (cidrs : List Text) (name : Text) (r : Request) (forged appended : Text) (before : List Text)
      (raw : Text) (hops : List Text)
      → peer_is_trusted net (host_only net r.remote_addr) (parse_cidrs net cidrs) ≡ true
      → configured_client_ip net r name ≡ none
      → r.header (codes "X-Forwarded-For") ≡ forged ++ b',' ∷ appended
      → split_on b',' appended ≡ before ++ raw ∷ hops
      → is_client net (parse_cidrs net cidrs) (trim_space raw) ≡ true
      → All (λ hop. is_client net (parse_cidrs net cidrs) (trim_space hop) ≡ false) hops
      → real_ip net cidrs name r ≡ trim_space raw
  unfolding real_ip forwarded_client_ip
  real_ip_forged cidrs name r forged appended before raw hops peer unset xff entries here skipped =
      rw
        (
          peer,
          unset,
          xff,
          not_empty forged b',' appended,
          split_on-append b',' forged appended,
          entries,
        )
        (rw
          (
            ← append_assoc (split_on b',' forged) before (raw ∷ hops),
            first_client-reverse (parse_cidrs net cidrs) (split_on b',' forged ++ before) raw hops
                here skipped,
          )
          refl)
