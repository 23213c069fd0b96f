-- ===== src/RateLimit/ClientIp/Walk.antt =====
-- Which address a request is limited on.
use jsm.Common.{
  ◌≡◌, refl, sym, ap, ◌∙◌, true, false, some, List, [], ◌∷◌, ◌++◌, reverse, arith, All, All-append,
  text, same_iff, append-nil, append_assoc,
}
use mathlib.Core.List.{reverse-append, reverse-cons}
use jsm.Http.{header_values, Request}
use jsm.RateLimit.ClientIp.{
  NetIp, Resolver, is_trusted, peer_addr, forwarded_chain, forwarded, x_forwarded_for, walk,
  client_ip,
}

module _ (net : NetIp) where
  open net use {Addr, Prefix}

  abbrev pub AllTrusted : List Prefix → List Addr → Type 0
  AllTrusted trusted hops = All (λ a. is_trusted net trusted a ≡ true) hops

  walk-trusted :
      (trusted : List Prefix) (peer : Addr) (right left : List Addr)
      → AllTrusted trusted right
      → walk net trusted peer (right ++ left) ≡ walk net trusted peer left
  unfolding walk
  walk-trusted trusted peer [] left h = refl
  walk-trusted trusted peer (a ∷ right) left (t, h) =
      ground (arith, walk-trusted trusted peer right left h)

  walk-untrusted :
      (trusted : List Prefix) (peer a : Addr) (left : List Addr)
      → is_trusted net trusted a ≡ false
      → walk net trusted peer (a ∷ left) ≡ a
  unfolding walk
  walk-untrusted trusted peer a left u = ground arith

  -- The chain's right part, all trusted, in the order of the walk.
  AllTrusted-reverse :
      (trusted : List Prefix) (hops : List Addr)
      → AllTrusted trusted hops
      → AllTrusted trusted (reverse hops)
  AllTrusted-reverse trusted [] h = tt
  AllTrusted-reverse trusted (a ∷ hops) (t, h) = rw (reverse-cons a hops) (
      All-append (λ x. is_trusted net trusted x ≡ true) (reverse hops) (a ∷ [])
        (AllTrusted-reverse trusted hops h) (t, tt))

  module _ (r : Resolver net) (req : Request) (peer : Addr)
      (from : peer_addr net req ≡ some peer) where
    -- A peer outside the trust list is the address, whatever headers the request carries.
    pub client_ip-untrusted :
        is_trusted net r.trusted peer ≡ false → client_ip net r req ≡ some peer
    unfolding client_ip
    client_ip-untrusted u = ground arith

    module _ (t : is_trusted net r.trusted peer ≡ true) (none_sent : r.header ≡ []) where
      client_ip-walk :
          client_ip net r req ≡ some (walk net r.trusted peer (reverse (forwarded_chain net req)))
      unfolding client_ip
      client_ip-walk = ground (arith, same_iff r.header [])

      -- Behind a trusted peer, and without a platform header, the address is the rightmost hop of
      -- the chain that is not trusted, whatever stands to its left.
      pub client_ip_untrusted_hop :
          (left : List Addr) (a : Addr) (right : List Addr)
          → forwarded_chain net req ≡ left ++ a ∷ right
          → is_trusted net r.trusted a ≡ false
          → AllTrusted r.trusted right
          → client_ip net r req ≡ some a
      client_ip_untrusted_hop left a right e u h =
          client_ip-walk
          ∙ ap some (
              ap (λ c. walk net r.trusted peer (reverse c)) e
              ∙ ap (walk net r.trusted peer) (
                  reverse-append left (a ∷ right)
                  ∙ ap (λ x. x ++ reverse left) (reverse-cons a right)
                  ∙ append_assoc (reverse right) (a ∷ []) (reverse left))
              ∙ walk-trusted r.trusted peer (reverse right) (a ∷ reverse left)
                  (AllTrusted-reverse r.trusted right h)
              ∙ walk-untrusted r.trusted peer a (reverse left) u)

      client_ip-AllTrusted :
          AllTrusted r.trusted (forwarded_chain net req) → client_ip net r req ≡ some peer
      client_ip-AllTrusted h =
          client_ip-walk
          ∙ ap some (
              ap (walk net r.trusted peer) (sym (append-nil (reverse (forwarded_chain net req))))
              ∙ walk-trusted r.trusted peer (reverse (forwarded_chain net req)) []
                  (AllTrusted-reverse r.trusted (forwarded_chain net req) h)
              ∙ (unfold walk in refl))

      -- Behind a trusted peer, and without a platform header, the last untrusted hop of the
      -- Forwarded headers is the address, whatever X-Forwarded-For says.
      pub client_ip-forwarded_wins :
          (left : List Addr) (a : Addr) (right : List Addr)
          → forwarded net (header_values req (text "Forwarded")) ≡ left ++ a ∷ right
          → is_trusted net r.trusted a ≡ false
          → AllTrusted r.trusted right
          → client_ip net r req ≡ some a
      client_ip-forwarded_wins left a right e u h =
          let xs = x_forwarded_for net (header_values req (text "X-Forwarded-For")) in
          client_ip_untrusted_hop (xs ++ left) a right
            (unfold forwarded_chain in ap (◌++◌ xs) e ∙ sym (append_assoc xs left (a ∷ right))) u h
