-- ===== src/Fetch/Ssrf.antt =====
-- backend/internal/feed/fetcher/ssrf.go: SSRFGuard. An address is its number; an IPv4-mapped IPv6
-- address is its IPv4 address, as net.IP.To4 has it. net.SplitHostPort, the resolver and
-- strings.ToLower are arguments. The predicates of net.IP are those of its documentation.
use Prim.Native.String.{len, slice}
use afghanistan_news.Base.{
  ℕ, ◌+◌, ◌-◌, ◌*◌, ◌/◌, ◌%◌, ◌^◌, String, Bool, false, not, ◌&&◌, ◌||◌, Option, none, some, List,
  [], ◌∷◌, leb, ◌==◌, str_eq, if◌then◌else◌, any,
}

pub data Ip : Type 0 where
  v4 v6 : ℕ → Ip

-- A network a/bits of each family.
pub data Network : Type 0 where
  net4 net6 : ℕ → ℕ → Network

abbrev pub quad : ℕ → ℕ → ℕ → ℕ → ℕ
quad a b c d = a * 16777216 + b * 65536 + c * 256 + d

-- (*net.IPNet).Contains
abbrev pub contains : Network → Ip → Bool
contains (net4 a bits) (v4 n) = n / 2 ^ (32 - bits) == a / 2 ^ (32 - bits)
contains (net6 a bits) (v6 n) = n / 2 ^ (128 - bits) == a / 2 ^ (128 - bits)
contains (net4 a bits) (v6 n) = false
contains (net6 a bits) (v4 n) = false

unfoldable pub blocked_networks : List Network
blocked_networks =
    net4 (quad 0 0 0 0) 8
    ∷ net4 (quad 10 0 0 0) 8
    ∷ net4 (quad 100 64 0 0) 10
    ∷ net4 (quad 127 0 0 0) 8
    ∷ net4 (quad 169 254 0 0) 16
    ∷ net4 (quad 172 16 0 0) 12
    ∷ net4 (quad 192 0 0 0) 24
    ∷ net4 (quad 192 0 2 0) 24
    ∷ net4 (quad 192 168 0 0) 16
    ∷ net4 (quad 198 18 0 0) 15
    ∷ net4 (quad 198 51 100 0) 24
    ∷ net4 (quad 203 0 113 0) 24
    ∷ net4 (quad 224 0 0 0) 4
    ∷ net4 (quad 240 0 0 0) 4
    ∷ net6 1 128
    ∷ net6 (0xfc00 * 2 ^ 112) 7
    ∷ net6 (0xfe80 * 2 ^ 112) 10
    ∷ net6 (0xff00 * 2 ^ 112) 8
    ∷ net6 0 128
    ∷ []

-- IsLoopback, IsPrivate, IsLinkLocalUnicast, IsLinkLocalMulticast, IsInterfaceLocalMulticast and
-- IsUnspecified, joined.
unfoldable pub is_special : Ip → Bool
is_special (v4 n) =
    n / 2 ^ 24 == 127
    || (n / 2 ^ 24 == 10 || (n / 2 ^ 20 == 172 * 16 + 1 || n / 2 ^ 16 == 192 * 256 + 168))
    || (n / 2 ^ 16 == 169 * 256 + 254 || (n / 2 ^ 8 == 224 * 65536 || n == 0))
is_special (v6 n) =
    n == 1
    || (n / 2 ^ 121 == 0xfc / 2
        || (n / 2 ^ 118 == 0xfe80 / 64
            || (n / 2 ^ 120 == 0xff && (n / 2 ^ 112 % 16 == 2 || n / 2 ^ 112 % 16 == 1) || n == 0)))

-- The texts 169.254.169.254 and fd00:ec2::254.
unfoldable pub is_metadata : Ip → Bool
is_metadata (v4 n) = n == quad 169 254 169 254
is_metadata (v6 n) = n == 0xfd00 * 2 ^ 112 + 0x0ec2 * 2 ^ 96 + 0x254

pub data Refusal : Type 0 where
  host_refused internal_host port_refused dns_failed no_addresses : Refusal
  nil_address special_address blocked_range metadata_address : Refusal

-- `none` is the nil error; the argument `none` is a nil address.
unfoldable pub check_ip : Bool → Option Ip → Option Refusal
check_ip allow_private ip = if allow_private then none else elim ip [
  | none ↦ some nil_address
  | some a ↦
      if is_special a
      then some special_address
      else if any (λ n. contains n a) blocked_networks
      then some blocked_range
      else if is_metadata a
      then some metadata_address
      else none
]

abbrev pub has_suffix : String → String → Bool
has_suffix s t = leb (len t) (len s) && str_eq (slice s (len s - len t) (len t)) t

-- strings.TrimSuffix
abbrev pub trim_suffix : String → String → String
trim_suffix s t = if has_suffix s t then slice s 0 (len s - len t) else s

unfoldable pub is_blocked_host : String → Bool
is_blocked_host h =
    str_eq h "localhost"
    || (str_eq h "metadata" || (str_eq h "metadata.google.internal" || str_eq h "instance-data"))

unfoldable pub is_internal_host : String → Bool
is_internal_host h =
    has_suffix h ".local"
    || (has_suffix h ".internal" || (has_suffix h ".localhost" || has_suffix h ".home.arpa"))

unfoldable pub is_allowed_port : String → Bool
is_allowed_port p =
    str_eq p "" || (str_eq p "80" || (str_eq p "443" || (str_eq p "8080" || str_eq p "8443")))

-- The loop over the resolved addresses.
unfoldable pub check_all : List Ip → Option Refusal
check_all [] = none
check_all (ip ∷ ips) = elim (check_ip false (some ip)) [ some e ↦ some e | none ↦ check_all ips ]

-- What the code needs of its environment: net.SplitHostPort (`none` its error), strings.ToLower, and
-- the answer of the resolver (`none` its error).
pub record Net : Type 0 where
  pub split : String → Option (String × String)
  pub lower : String → String
  pub resolve : String → Option (List Ip)

-- hostname before the lower case, and port.
abbrev pub split_target : Net → String → String × String
split_target net host = elim (net.split host) [ some (h, p) ↦ (h, p) | none ↦ (host, "") ]

abbrev pub hostname_of : Net → String → String
hostname_of net host = net.lower (trim_suffix (split_target net host).0 ".")

abbrev pub check_answer : Option (List Ip) → Option Refusal
check_answer none = some dns_failed
check_answer (some []) = some no_addresses
check_answer (some (ip ∷ ips)) = check_all (ip ∷ ips)

unfoldable pub check_host : Net → Bool → String → Option Refusal
check_host net allow_private host =
    if allow_private
    then none
    else if is_blocked_host (hostname_of net host)
    then some host_refused
    else if is_internal_host (hostname_of net host)
    then some internal_host
    else if not (is_allowed_port (split_target net host).1)
    then some port_refused
    else check_answer (net.resolve (hostname_of net host))

pub data Dialled : Type 0 where
  refused : Refusal → Dialled
  unresolved : Dialled
  connected : Ip → Dialled

abbrev pub connect : Option (List Ip) → Dialled
connect none = unresolved
connect (some []) = unresolved
connect (some (ip ∷ ips)) = connected ip

-- DialContext of the transport: the guard looks the host up, and net.Dialer, which is given the same
-- name, looks it up once more; it connects to the first address of the second answer.
unfoldable pub dial_context : Net → (String → Option (List Ip)) → Bool → String → Dialled
dial_context net resolve_again allow_private host = elim (check_host net allow_private host) [
  | some e ↦ refused e
  | none ↦ connect (resolve_again host)
]

-- CheckRedirect of the client; `hops` is len(via). `none` follows the redirect.
unfoldable pub check_redirect : Net → Bool → ℕ → ℕ → String → Option (Option Refusal)
check_redirect net allow_private max_redirects hops host =
    if leb max_redirects hops
    then some none
    else elim (check_host net allow_private host) [ none ↦ none | some e ↦ some (some e) ]
