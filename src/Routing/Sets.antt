-- ===== src/Routing/Sets.antt =====
-- internal/routing/routing.go: the sets handed to nftables against the decision, and the two forms of
-- an IPv4 address.
use Prim.Native.Nat.{bit_and}
use mathlib.Core.List.{Memᴰ}
use outline_gate.Prelude.{
  Bool-cases, inl, inr, ℕ, zero, suc, ◌<◌, ◌≡◌, ◌≢◌, refl, ◌∙◌, Bool, true, false, ◌||◌, List, [],
  ◌∷◌, ◌++◌, arith, ◌==◌, ==_iff, if◌then◌else◌, any, All, length, take,
}
use outline_gate.Go.Ip.{
  IpAddr, Bytes, is_nil, to4, prefer4, ip_equal, net_contains, bytes_eq, v4_prefix, host_net,
  cidr_mask,
}
use outline_gate.Routing.{
  direct, Engine, decide, decide_mode, is_server_ip, contains_ip, server_nets, bypass_nets,
  with_server_ips,
}

-- An IPv4 address in its short form.
pub data IsV4 : IpAddr → Type 0 where
  v4 : {a b c d : ℕ} → a < 256 → b < 256 → c < 256 → d < 256 → IsV4 (a ∷ b ∷ c ∷ d ∷ [])

-- Whether a mask of eight ones keeps every number below `n`.
keeps_below : ℕ → Bool
keeps_below zero = true
keeps_below (suc n) = if bit_and n 255 == n then keeps_below n else false

keeps_below-mask : (n : ℕ) → keeps_below n ≡ true → (y : ℕ) → y < n → bit_and y 255 ≡ y
unfolding keeps_below
keeps_below-mask zero e y l = absurd (omega arith)
keeps_below-mask (suc n) e y l =
    let last : (bit_and n 255 == n) ≡ true = ground arith in
    elim (Bool-cases (y == n)) [
      | inl same ↦ let i : y ≡ n = ground arith in rw i ((==_iff _ n).0 last)
      | inr lower ↦ keeps_below-mask n (ground arith) y (ground arith)
    ]

full_mask : (y : ℕ) → y < 256 → bit_and y 255 ≡ y
unfolding keeps_below
full_mask = keeps_below-mask 256 refl

-- The mapped form of an IPv4 address is decided as its short form.
pub decide_mapped : (e : Engine) {ip : IpAddr} → IsV4 ip → decide e (v4_prefix ++ ip) ≡ decide e ip
unfolding decide to4
decide_mapped e (v4 a b c d) = refl

-- A host net holds its own address only.
host_net-contains :
    {ip dst : IpAddr} → IsV4 ip → IsV4 dst → net_contains (host_net ip) dst ≡ bytes_eq ip dst
unfolding net_contains to4 cidr_mask
host_net-contains (v4 a b c d) (v4 x y z w) = rw (
  full_mask _ a,
  full_mask _ b,
  full_mask _ c,
  full_mask _ d,
  full_mask _ x,
  full_mask _ y,
  full_mask _ z,
  full_mask _ w,
)

-- The addresses that a lookup yields: IPv4 in either form, IPv6, or `nil`.
pub data IsAddr : IpAddr → Type 0 where
  unset : IsAddr []
  short : {ip : IpAddr} → IsV4 ip → IsAddr ip
  mapped : {ip : IpAddr} → IsV4 ip → IsAddr (v4_prefix ++ ip)
  v6 : {ip : IpAddr} → length ip ≡ 16 → bytes_eq (take 12 ip) v4_prefix ≡ false → IsAddr ip

any-append {ℓ} :
    {A : Type ℓ} (p : A → Bool) (xs ys : List A) → any p (xs ++ ys) ≡ (any p xs || any p ys)
any-append p [] ys = refl
any-append p (x ∷ xs) ys = ground (arith, any-append p xs ys)

-- For one server address, the host net answers as the test of `isServer`.
server_net :
    {ip : IpAddr} (dst : IpAddr)
    → IsAddr ip
    → IsV4 dst
    → contains_ip (server_nets (ip ∷ [])) dst ≡ is_server_ip dst ip
unfolding to4 ip_equal
server_net dst unset w = refl
server_net {ip} dst (short (v4 a b c d)) (v4 x y z t) =
    rw (host_net-contains (v4 a b c d) (v4 x y z t)) (ground arith)
server_net dst (mapped (v4 a b c d)) (v4 x y z t) =
    rw (host_net-contains (v4 a b c d) (v4 x y z t)) (ground arith)
server_net {ip} dst (v6 l p) (v4 x y z t) = ground arith

server_nets-cons :
    (ip : IpAddr) (ips : List IpAddr) (dst : IpAddr)
    → contains_ip (server_nets (ip ∷ ips)) dst
      ≡ (contains_ip (server_nets (ip ∷ [])) dst || contains_ip (server_nets ips) dst)
server_nets-cons ip ips dst = ground arith

server_nets-contains :
    (ips : List IpAddr) (dst : IpAddr)
    → All IsAddr ips
    → IsV4 dst
    → contains_ip (server_nets ips) dst ≡ any (is_server_ip dst) ips
server_nets-contains [] dst h w = refl
server_nets-contains (ip ∷ ips) dst h w =
    server_nets-cons ip ips dst ∙ rw (server_net dst h.0 w, server_nets-contains ips dst h.1 w)

prefer4-v4 : {dst : IpAddr} → IsV4 dst → prefer4 dst ≡ dst
unfolding to4
prefer4-v4 (v4 a b c d) = refl

not-nil-v4 : {dst : IpAddr} → IsV4 dst → is_nil dst ≡ false
not-nil-v4 (v4 a b c d) = refl

-- For an IPv4 destination the set that nftables is given as `@bypass` is exact: `Decide` sends it direct
-- if the set holds it, and otherwise goes by the mode.
pub decide-bypass_nets :
    (e : Engine) {dst : IpAddr}
    → All IsAddr e.server_ips
    → IsV4 dst
    → decide e dst ≡ (if contains_ip (bypass_nets e) dst then direct else decide_mode e dst)
unfolding decide
decide-bypass_nets e {dst} h w =
    rw
      (
        not-nil-v4 w,
        prefer4-v4 w,
        any-append (λ n. net_contains n dst) e.bypass (server_nets e.server_ips),
        server_nets-contains e.server_ips dst h w,
      )
      (ground arith)

bytes_eq_refl : (b : Bytes) → bytes_eq b b ≡ true
bytes_eq_refl [] = refl
bytes_eq_refl (x ∷ b) = ground (arith, bytes_eq_refl b)

ip_equal_refl : (ip : IpAddr) → ip_equal ip ip ≡ true
unfolding ip_equal
ip_equal_refl ip = ground (arith, bytes_eq_refl ip)

is_nil-ne : (ip : IpAddr) → ip ≢ [] → is_nil ip ≡ false
is_nil-ne [] h = absurd (h refl)
is_nil-ne (x ∷ ip) h = refl

any-mem {ℓ} :
    {A : Type ℓ} (p : A → Bool) {a : A} {xs : List A} → Memᴰ a xs → p a ≡ true → any p xs ≡ true
any-mem p (Memᴰ.head e) h = rw (← e, h)
any-mem p (Memᴰ.tail m) h = ground (arith, any-mem p m h)

-- Whatever the mode, the policy and the nets: an address of the server is sent direct.
pub decide_server :
    (e : Engine) (ips : List IpAddr) (ip : IpAddr)
    → ip ≢ []
    → Memᴰ ip ips
    → decide (with_server_ips e ips) ip ≡ direct
unfolding decide
decide_server e ips ip ne m =
    let self : is_server_ip (prefer4 ip) ip ≡ true =
      rw (is_nil-ne ip ne) (ip_equal_refl (prefer4 ip)) in
    rw (is_nil-ne ip ne, any-mem (is_server_ip (prefer4 ip)) m self)
