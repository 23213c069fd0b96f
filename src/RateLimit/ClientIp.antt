-- ===== src/RateLimit/ClientIp.antt =====
-- backend/internal/rate-limiter/clientip.go: the address that a request is limited on. Package
-- net/netip and net.SplitHostPort are parameters; `netip.Addr{}`, the invalid address, is `none`.
pub mod Forwarded
pub mod Walk
use jsm.Common.{
  ℕ, ◌+◌, Bool, true, false, not, ◌&&◌, ◌||◌, Option, none, some, List, [], ◌∷◌, ◌++◌, map, reverse,
  leb, ◌==◌, if◌then◌else◌, Bytes, text, same, has_prefix, cut, split,
}
use jsm.Metrics.{Result, ok, err, other}
use jsm.Text.{trim_space}
use jsm.Http.{Request, header_values, header_get, canonical_header_key}
use Forwarded.{split_forwarded}

-- What the resolver uses of package net and net/netip.
pub record NetIp : Type 1 where
  pub Addr : Type 0
  pub Prefix : Type 0
  pub parse : Bytes → Option Addr
  pub parse_addr_port : Bytes → Option Addr
  pub split_host_port : Bytes → Option Bytes
  pub unmap : Addr → Addr
  pub is_4 : Addr → Bool
  pub is_4_in_6 : Addr → Bool
  pub prefix_64 : Addr → Option Prefix
  pub addr_string : Addr → Bytes
  pub prefix_string : Prefix → Bytes
  pub contains : Prefix → Addr → Bool
  pub parse_prefix : Bytes → Option Prefix
  pub masked : Prefix → Prefix
  pub single_host : Addr → Prefix

abbrev trim_quotes_left : Bytes → Bytes
trim_quotes_left [] = []
trim_quotes_left (c ∷ s) = if c == b'"' then trim_quotes_left s else c ∷ s

-- strings.Trim with the cutset `"`.
abbrev trim_quotes : Bytes → Bytes
trim_quotes s = reverse (trim_quotes_left (reverse (trim_quotes_left s)))

abbrev lower_byte : ℕ → ℕ
lower_byte c = if leb b'A' c && leb c b'Z' then c + 32 else c

-- strings.EqualFold against "for", to which no letter outside ASCII folds.
abbrev is_for : Bytes → Bool
is_for name = same (map lower_byte name) (text "for")

abbrev prepend {ℓ} : {A : Type ℓ} → A → Result (List A) → Result (List A)
prepend a (ok rest) = ok (a ∷ rest)
prepend a (err e) = err e

module _ (net : NetIp) where
  open net use {Addr, Prefix, parse, parse_addr_port, split_host_port, unmap, contains}

  -- The resolver of ProxyConfig, its header name made canonical.
  pub record Resolver : Type 0 where
    pub trusted : List Prefix
    pub header : Bytes

  unfoldable pub new_client_ip_resolver : List Prefix → Bytes → Resolver
  new_client_ip_resolver trusted_proxies client_ip_header = record {
    trusted = trusted_proxies;
    header = canonical_header_key client_ip_header;
  }

  unfoldable pub is_trusted : List Prefix → Addr → Bool
  is_trusted [] addr = false
  is_trusted (p ∷ ps) addr = if contains p addr then true else is_trusted ps addr

  host_of : Option Bytes → Option Addr
  host_of none = none
  host_of (some host) = elim (parse host) [ none ↦ none | some a ↦ some (unmap a) ]

  unfoldable pub parse_addr : Bytes → Option Addr
  unfolding host_of
  parse_addr raw =
      let s = trim_space raw in
      if same s []
      then none
      else if same s (text "unknown") || has_prefix s (text "_")
      then none
      else elim (parse s) [
        | some a ↦ some (unmap a)
        | none ↦ elim (parse_addr_port s) [
          | some a ↦ some (unmap a)
          | none ↦ host_of (split_host_port s)
        ]
      ]

  unfoldable pub peer_addr : Request → Option Addr
  peer_addr req = elim (split_host_port req.remote_addr) [
    | none ↦ parse_addr req.remote_addr
    | some host ↦ parse_addr host
  ]

  for_param : List Bytes → Option Addr
  for_param [] = none
  for_param (param ∷ params) =
      let rest = for_param params in
      elim (cut b'=' (trim_space param)) [
        | none ↦ rest
        | some (name, value) ↦
            if not (is_for (trim_space name))
            then rest
            else parse_addr (trim_quotes (trim_space value))
      ]

  -- The `for` parameter of one RFC 7239 record.
  unfoldable pub forwarded_for : Bytes → Option Addr
  unfolding for_param
  forwarded_for entry = for_param (split b';' entry)

  -- The entries that parse, in order.
  unfoldable pub parse_all : (Bytes → Option Addr) → List Bytes → List Addr
  parse_all p [] = []
  parse_all p (part ∷ parts) =
      let rest = parse_all p parts in elim (p part) [ none ↦ rest | some a ↦ a ∷ rest ]

  unfoldable pub x_forwarded_for : List Bytes → List Addr
  unfolding parse_all
  x_forwarded_for [] = []
  x_forwarded_for (header ∷ headers) =
      parse_all (λ part. parse_addr (trim_space part)) (split b',' header)
      ++ x_forwarded_for headers

  unfoldable pub forwarded : List Bytes → List Addr
  unfolding parse_all
  forwarded [] = []
  forwarded (header ∷ headers) =
      let rest = forwarded headers in
      elim (split_forwarded header) [
        | none ↦ rest
        | some entries ↦ parse_all forwarded_for entries ++ rest
      ]

  -- Earliest hop first, as far as the headers are in order.
  unfoldable pub forwarded_chain : Request → List Addr
  forwarded_chain req =
      x_forwarded_for (header_values req (text "X-Forwarded-For"))
      ++ forwarded (header_values req (text "Forwarded"))

  -- The walk from the right, on the reversed chain.
  unfoldable pub walk : List Prefix → Addr → List Addr → Addr
  walk trusted peer [] = peer
  walk trusted peer (a ∷ earlier) =
      let rest = walk trusted peer earlier in if not (is_trusted trusted a) then a else rest

  -- The platform header's address, where one is configured, sent and well-formed.
  platform_addr : Bytes → Request → Option Addr
  platform_addr header req =
      if same header []
      then none
      else let raw = header_get req header in if same raw [] then none else parse_addr raw

  from_chain : Resolver → Addr → Request → Addr
  from_chain r peer req = elim (platform_addr r.header req) [
    | some a ↦ a
    | none ↦ walk r.trusted peer (reverse (forwarded_chain req))
  ]

  unfoldable pub client_ip : Resolver → Request → Option Addr
  unfolding from_chain platform_addr
  client_ip r req = elim (peer_addr req) [
    | none ↦ none
    | some peer ↦ some (if not (is_trusted r.trusted peer) then peer else from_chain r peer req)
  ]

  unfoldable pub bucket_value : Option Addr → Bytes
  bucket_value none = text "unknown"
  bucket_value (some a) =
      if net.is_4 a || net.is_4_in_6 a
      then net.addr_string (unmap a)
      else elim (net.prefix_64 a) [ none ↦ net.addr_string a | some p ↦ net.prefix_string p ]

  proxies_from : List Bytes → Result (List Prefix)
  proxies_from [] = ok []
  proxies_from (part ∷ parts) =
      let rest = proxies_from parts in
      let s = trim_space part in
      if same s [] then rest else elim (net.parse_prefix s) [
        | some p ↦ prepend (net.masked p) rest
        | none ↦ elim (parse s) [
          | some a ↦ prepend (net.single_host a) rest
          | none ↦ err (other "trusted proxy is neither an address nor a CIDR")
        ]
      ]

  unfoldable pub parse_trusted_proxies : Bytes → Result (List Prefix)
  unfolding proxies_from
  parse_trusted_proxies raw = proxies_from (split b',' raw)
