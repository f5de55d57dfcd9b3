-- ===== src/Go/Ip.antt =====
-- Go's `net.IP`, `net.IPMask` and `net.IPNet`: lists of bytes, where the empty list is `nil`.
use Prim.Native.Nat.{bit_and}
use outline_gate.Prelude.{
  ℕ, zero, suc, ◌-◌, ◌*◌, ◌^◌, ◌<◌, Bool, true, false, ◌&&◌, List, [], ◌∷◌, leb, ◌==◌,
  if◌then◌else◌, length, drop, take, all,
}

abbrev pub Bytes : Type 0
Bytes = List ℕ

abbrev pub IpAddr : Type 0
IpAddr = Bytes

-- `bytes.Equal`.
abbrev pub bytes_eq : Bytes → Bytes → Bool
bytes_eq [] [] = true
bytes_eq (x ∷ xs) (y ∷ ys) = x == y && bytes_eq xs ys
bytes_eq _ _ = false

abbrev pub is_nil : IpAddr → Bool
is_nil [] = true
is_nil (x ∷ xs) = false

-- `v4InV6Prefix`.
abbrev pub v4_prefix : Bytes
v4_prefix = 0 ∷ 0 ∷ 0 ∷ 0 ∷ 0 ∷ 0 ∷ 0 ∷ 0 ∷ 0 ∷ 0 ∷ 0xff ∷ 0xff ∷ []

-- `IP.To4`.
unfoldable pub to4 : IpAddr → IpAddr
to4 ip =
    if length ip == 4
    then ip
    else if length ip == 16 && bytes_eq (take 12 ip) v4_prefix
    then drop 12 ip
    else []

-- The repeated `if v4 := ip.To4(); v4 != nil { ip = v4 }`.
abbrev pub prefer4 : IpAddr → IpAddr
prefer4 ip = if is_nil (to4 ip) then ip else to4 ip

-- `IP.Equal`.
unfoldable pub ip_equal : IpAddr → IpAddr → Bool
ip_equal ip x =
    if length ip == length x
    then bytes_eq ip x
    else if length ip == 4 && length x == 16
    then bytes_eq (take 12 x) v4_prefix && bytes_eq ip (drop 12 x)
    else if length ip == 16 && length x == 4
    then bytes_eq (take 12 ip) v4_prefix && bytes_eq (drop 12 ip) x
    else false

pub record IpNet : Type 0 where
  pub ip : IpAddr
  pub mask : Bytes

-- `networkNumberAndMask`; `nil` twice for a net that has no such form.
abbrev pub number_and_mask : IpNet → IpAddr × Bytes
number_and_mask n =
    let ip = prefer4 n.ip in
    if is_nil (to4 n.ip) && not16 n.ip
    then ([], [])
    else if length n.mask == 4
    then (if length ip == 4 then (ip, n.mask) else ([], []))
    else if length n.mask == 16
    then (if length ip == 4 then (ip, drop 12 n.mask) else (ip, n.mask))
    else ([], [])
  where
    not16 : IpAddr → Bool
    not16 x = if length x == 16 then false else true

-- The loop of `IPNet.Contains`.
abbrev pub masked_eq : Bytes → Bytes → Bytes → Bool
masked_eq (x ∷ nn) (m ∷ ms) (y ∷ ip) = bit_and x m == bit_and y m && masked_eq nn ms ip
masked_eq _ _ _ = true

-- `IPNet.Contains`.
unfoldable pub net_contains : IpNet → IpAddr → Bool
net_contains n x =
    let (nn, m) = number_and_mask n in
    let ip = prefer4 x in if length ip == length nn then masked_eq nn m ip else false

-- One byte of a mask with `ones` leading bits set, at most eight.
abbrev pub mask_byte : ℕ → ℕ
mask_byte ones = if leb 8 ones then 0xff else 256 - 2 ^ (8 - ones)

-- `CIDRMask ones bits` for `bits` of 8 times `bytes`.
unfoldable pub cidr_mask : ℕ → ℕ → Bytes
cidr_mask ones zero = []
cidr_mask ones (suc bytes) = mask_byte ones ∷ cidr_mask (ones - 8) bytes

abbrev pub and_all : Bytes → Bytes → Bytes
and_all (x ∷ xs) (m ∷ ms) = bit_and x m ∷ and_all xs ms
and_all _ _ = []

-- `IP.Mask`.
unfoldable pub ip_mask : IpAddr → Bytes → IpAddr
ip_mask ip mask =
    let m =
      if length mask == 16 && length ip == 4 && all (λ b. b == 0xff) (take 12 mask)
      then drop 12 mask
      else mask in
    let x =
      if length m == 4 && length ip == 16 && bytes_eq (take 12 ip) v4_prefix
      then drop 12 ip
      else ip in
    if length x == length m then and_all x m else []

-- `&net.IPNet{IP: ip, Mask: net.CIDRMask(32, 32)}` and its IPv6 twin.
abbrev pub host_net : IpAddr → IpNet
host_net ip = record { ip = ip; mask = cidr_mask (8 * length ip) (length ip) }

abbrev pub IsByte : ℕ → Type 0
IsByte b = b < 256
