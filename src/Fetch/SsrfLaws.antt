-- ===== src/Fetch/SsrfLaws.antt =====
-- What passes the SSRF guard (backend/internal/feed/fetcher/ssrf.go).
use afghanistan_news.Base.{
  ℕ, ◌≡◌, refl, sym, ◌∙◌, String, Bool, true, false, ◌&&◌, ◌||◌, Option, none, some, List, [], ◌∷◌,
  arith, leb, any, is_some, Option-cases, inl, inr, All,
}
use afghanistan_news.Fetch.Ssrf.{
  Ip, v4, quad, contains, blocked_networks, is_special, is_metadata, check_ip, check_all,
  check_host, Network, net4, net6, Net, hostname_of, split_target, check_answer, is_blocked_host,
  is_internal_host, is_allowed_port, connected, dial_context,
}

-- The IPv4 addresses that are not the public internet's, as first and last address.
abbrev pub closed_ranges : List (ℕ × ℕ)
closed_ranges =
    (quad 0 0 0 0, quad 0 255 255 255)
    ∷ (quad 10 0 0 0, quad 10 255 255 255)
    ∷ (quad 100 64 0 0, quad 100 127 255 255)
    ∷ (quad 127 0 0 0, quad 127 255 255 255)
    ∷ (quad 169 254 0 0, quad 169 254 255 255)
    ∷ (quad 172 16 0 0, quad 172 31 255 255)
    ∷ (quad 192 0 0 0, quad 192 0 0 255)
    ∷ (quad 192 0 2 0, quad 192 0 2 255)
    ∷ (quad 192 168 0 0, quad 192 168 255 255)
    ∷ (quad 198 18 0 0, quad 198 19 255 255)
    ∷ (quad 198 51 100 0, quad 198 51 100 255)
    ∷ (quad 203 0 113 0, quad 203 0 113 255)
    ∷ (quad 224 0 0 0, quad 239 255 255 255)
    ∷ (quad 240 0 0 0, quad 255 255 255 255)
    ∷ []

abbrev pub in_closed_range : ℕ → Bool
in_closed_range n = any (λ (r : ℕ × ℕ). leb r.0 n && leb n r.1) closed_ranges

-- Network by network, the addresses of the range.
abbrev AreRanges : ℕ → List Network → List (ℕ × ℕ) → Type 0
AreRanges n [] [] = Unit
AreRanges n (m ∷ ms) (r ∷ rs) = (contains m (v4 n) ≡ (leb r.0 n && leb n r.1)) × AreRanges n ms rs
AreRanges n _ _ = ⊥

AreRanges-any :
    (n : ℕ) (ms : List Network) (rs : List (ℕ × ℕ))
    → AreRanges n ms rs
    → any (λ m. contains m (v4 n)) ms ≡ any (λ (r : ℕ × ℕ). leb r.0 n && leb n r.1) rs
AreRanges-any n [] [] h = refl
AreRanges-any n (m ∷ ms) (r ∷ rs) h = λ i. h.0 i || AreRanges-any n ms rs h.1 i
AreRanges-any n [] (r ∷ rs) h = absurd h
AreRanges-any n (m ∷ ms) [] h = absurd h

only_v4 : List Network → List Network
only_v4 [] = []
only_v4 (net4 a b ∷ ms) = net4 a b ∷ only_v4 ms
only_v4 (net6 a b ∷ ms) = only_v4 ms

any-only_v4 :
    (n : ℕ) (ms : List Network)
    → any (λ m. contains m (v4 n)) (only_v4 ms) ≡ any (λ m. contains m (v4 n)) ms
unfolding only_v4
any-only_v4 n [] = refl
any-only_v4 n (net4 a b ∷ ms) = λ i. contains (net4 a b) (v4 n) || any-only_v4 n ms i
any-only_v4 n (net6 a b ∷ ms) = any-only_v4 n ms

networks-AreRanges : (n : ℕ) → AreRanges n (only_v4 blocked_networks) closed_ranges
unfolding blocked_networks only_v4
networks-AreRanges n = (
  ground arith,
  (
    ground arith,
    (
      ground arith,
      (
        ground arith,
        (
          ground arith,
          (
            ground arith,
            (
              ground arith,
              (
                ground arith,
                (
                  ground arith,
                  (
                    ground arith,
                    (ground arith, (ground arith, (ground arith, (ground arith, tt)))),
                  ),
                ),
              ),
            ),
          ),
        ),
      ),
    ),
  ),
)

networks_eq_ranges : (n : ℕ) → any (λ m. contains m (v4 n)) blocked_networks ≡ in_closed_range n
networks_eq_ranges n =
    sym (any-only_v4 n blocked_networks)
    ∙ AreRanges-any n (only_v4 blocked_networks) closed_ranges (networks-AreRanges n)

special_blocked :
    (n : ℕ) → is_special (v4 n) ≡ true → any (λ m. contains m (v4 n)) blocked_networks ≡ true
unfolding is_special blocked_networks
special_blocked n h = ground arith

metadata_blocked :
    (n : ℕ) → is_metadata (v4 n) ≡ true → any (λ m. contains m (v4 n)) blocked_networks ≡ true
unfolding is_metadata blocked_networks
metadata_blocked n h = ground arith

-- Outside the test escape hatch, an IPv4 address is refused exactly when it lies in one of the closed
-- ranges: this network, private, shared, loopback, link-local with the metadata address, protocol,
-- documentation, benchmarking, multicast or reserved.
pub check_ip_exact : (n : ℕ) → is_some (check_ip false (some (v4 n))) ≡ in_closed_range n
unfolding check_ip
check_ip_exact n = ground (arith, networks_eq_ranges n, special_blocked n, metadata_blocked n)

-- All addresses of a list pass one by one.
abbrev pub AllPass : List Ip → Type 0
AllPass = All (λ a. check_ip false (some a) ≡ none)

check_all-none : (ips : List Ip) → check_all ips ≡ none → AllPass ips
unfolding check_all
check_all-none [] h = tt
check_all-none (a ∷ rest) h = elim (Option-cases (check_ip false (some a))) [
  | inl e ↦ (e, check_all-none rest (rw (e, check_all) at h))
  | inr (x, e) ↦ ground arith
]

-- What the guard has seen of a host that it lets through.
pub record Vetted (net : Net) (host : String) : Type 0 where
  pub name_ok : is_blocked_host (hostname_of net host) ≡ false
  pub not_internal : is_internal_host (hostname_of net host) ≡ false
  pub port_ok : is_allowed_port (split_target net host).1 ≡ true
  pub first : Ip
  pub others : List Ip
  pub answer : net.resolve (hostname_of net host) ≡ some (first ∷ others)
  pub pass : AllPass (first ∷ others)

vet_answer :
    (o : Option (List Ip))
    → check_answer o ≡ none
    → (a : Ip) × (rest : List Ip) × (o ≡ some (a ∷ rest)) × AllPass (a ∷ rest)
vet_answer none h = absurd (cc)
vet_answer (some []) h = absurd (cc)
vet_answer (some (a ∷ rest)) h = (a, rest, refl, check_all-none (a ∷ rest) h)

-- A host that the guard lets through is not one of the infrastructure's names, has an allowed port,
-- and resolved to addresses that each pass, at least one.
pub check_host_vets :
    (net : Net) (host : String) → check_host net false host ≡ none → Vetted net host
unfolding check_host
check_host_vets net host h =
    let (a, rest, answer, pass) = vet_answer (net.resolve (hostname_of net host)) (ground arith) in
    record {
      name_ok = ground arith;
      not_internal = ground arith;
      port_ok = ground arith;
      first = a;
      others = rest;
      answer = answer;
      pass = pass;
    }

-- The guard and the dialer look a name up on their own: once the guard has let a host through, the
-- connection goes to whatever address the second lookup puts first, an address that the guard
-- refuses included.
pub dial_unguarded :
    (net : Net) (host : String) (again : String → Option (List Ip)) (ip : Ip) (rest : List Ip)
    → check_host net false host ≡ none
    → again host ≡ some (ip ∷ rest)
    → dial_context net again false host ≡ connected ip
unfolding dial_context
dial_unguarded net host again ip rest h e = ground arith

-- Where both lookups answer alike, only vetted addresses are connected to.
pub dial_stable :
    (net : Net) (host : String) (again : String → Option (List Ip)) (ip : Ip)
    → again host ≡ net.resolve (hostname_of net host)
    → dial_context net again false host ≡ connected ip
    → check_ip false (some ip) ≡ none
unfolding dial_context
dial_stable net host again ip same h = elim (Option-cases (check_host net false host)) [
  | inl e ↦ let v = check_host_vets net host e in ground (arith, v.answer, v.pass.0)
  | inr (x, e) ↦ ground arith
]
