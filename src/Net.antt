-- ===== src/Net.antt =====
-- What nett takes from Go's `net` and `net/url` packages. An IP is its list of bytes, 4 or 16 of
-- them. The parsers and printers of their text forms are a parameter of the development, the record
-- `Net`, with the documented law of addresses in `IsNet`.
use Prim.Native.Nat.{bit_and}
use mathlib.Core.Option.{get_or}
use nett.Prelude.{
  ℕ, Bool, true, ◌<◌, ◌≡◌, Option, none, some, [], ◌∷◌, ◌++◌, ◌&&◌, ◌==◌, if◌then◌else◌, length,
  take, drop, All,
}
use nett.Text.{Bytes, eq}

abbrev pub Ip : Type 0
Ip = Bytes

abbrev pub v4_in_v6_prefix : Bytes
v4_in_v6_prefix = 0 ∷ 0 ∷ 0 ∷ 0 ∷ 0 ∷ 0 ∷ 0 ∷ 0 ∷ 0 ∷ 0 ∷ 255 ∷ 255 ∷ []

-- IP.To4
unfoldable pub to4 : Ip → Option Ip
unfolding eq
to4 ip =
    if length ip == 4
    then some ip
    else if length ip == 16 && eq (take 12 ip) v4_in_v6_prefix
    then some (drop 12 ip)
    else none

-- IP.To16
unfoldable pub to16 : Ip → Option Ip
to16 ip =
    if length ip == 4
    then some (v4_in_v6_prefix ++ ip)
    else if length ip == 16
    then some ip
    else none

-- of a call on a nil IP: To4 and To16 return nil
abbrev pub of_nil : Option Ip → (Ip → Option Ip) → Option Ip
of_nil none f = none
of_nil (some ip) f = f ip

-- net.IPNet
pub record Cidr : Type 0 where
  pub network : Bytes
  pub mask : Bytes

-- the parts of a url.URL that nett reads: `Hostname()` and `Path`
pub record Url : Type 0 where
  pub hostname : Bytes
  pub path : Bytes

pub record Net : Type 0 where
  -- net.ParseIP; nil is `none`
  pub parse_ip : Bytes → Option Ip
  -- IP.String
  pub ip_string : Ip → Bytes
  -- the network of net.ParseCIDR; an error is `none`
  pub parse_cidr : Bytes → Option Cidr
  -- url.Parse; an error is `none`
  pub parse_url : Bytes → Option Url

unfoldable pub same_under : Bytes → Bytes → Bytes → Bool
same_under (a ∷ net) (m ∷ mask) (b ∷ ip) = bit_and a m == bit_and b m && same_under net mask ip
same_under _ _ _ = true

-- IPNet.Contains: both addresses in their shortest form, and equal under the mask
unfoldable pub cidr_contains : Cidr → Ip → Bool
unfolding to4 same_under
cidr_contains n ip =
    let x = get_or (to4 ip) ip in
    let nn = get_or (to4 n.network) n.network in
    let m = if length n.mask == 16 && length nn == 4 then drop 12 n.mask else n.mask in
    length x == length nn && same_under nn m x

abbrev pub IsByte : ℕ → Type 0
IsByte b = b < 256

-- ParseIP reads back what String prints: to an address of the same 4 bytes, or of the same 16.
pub record IsNet (net : Net) : Type 0 where
  pub reads_v4 :
      (ip : Ip)
      → length ip ≡ 4
      → All IsByte ip
      → of_nil (net.parse_ip (net.ip_string ip)) to4 ≡ some ip
  pub reads_v6 :
      (ip : Ip)
      → length ip ≡ 16
      → All IsByte ip
      → of_nil (net.parse_ip (net.ip_string ip)) to16 ≡ some ip
