-- ===== src/Advertise.antt =====
-- src/advertise.rs: the address that `serve` writes down for `token mint`. The file's contents, JSON,
-- and the text of a socket address are arguments; a file that cannot be read is none.
use holler_server.Prelude.{
  Bool, true, false, not, ◌&&◌, String, List, [], ◌∷◌, Option, none, some, if◌then◌else◌,
}
use holler_server.Net.{IpAddr, SocketAddr, is_loopback, is_unspecified}

pub record AdvertiseRecord : Type 0 where
  pub address : Option String

pub data AdvertiseState : Type 0 where
  reachable : String → AdvertiseState
  loopback_only unknown : AdvertiseState

unfoldable pub is_advertisable_ip : IpAddr → Bool
is_advertisable_ip ip = not (is_loopback ip) && not (is_unspecified ip)

unfoldable pub first_advertisable : (SocketAddr → String) → List SocketAddr → Option String
unfolding is_advertisable_ip
first_advertisable shown [] = none
first_advertisable shown (a ∷ addrs) =
    let later = first_advertisable shown addrs in
    if is_advertisable_ip a.ip then some (shown a) else later

unfoldable pub resolve_advertise :
    (SocketAddr → String) → Option String → List SocketAddr → Option String
unfolding first_advertisable
resolve_advertise shown (some explicit) addrs = some explicit
resolve_advertise shown none addrs = first_advertisable shown addrs

-- A record as JSON, and back.
pub record Json (Contents : Type 0) : Type 0 where
  pub to_string : AdvertiseRecord → Contents
  pub from_str : Contents → Option AdvertiseRecord

-- How writing the file ends: what it holds then, and whether that is a success.
pub data Write (Contents : Type 0) : Type 0 where
  succeeds : Write Contents
  fails : (left : Option Contents) → Write Contents

module _ {Contents : Type 0} (j : Json Contents) where
  unfoldable pub persist : Write Contents → Option String → Option Contents → Bool × Option Contents
  persist succeeds advertise before = (true, some (j.to_string (record { address = advertise })))
  persist (fails left) advertise before = (false, left)

  unfoldable pub read : Option Contents → AdvertiseState
  read none = unknown
  read (some contents) = elim (j.from_str contents) [
    | none ↦ unknown
    | some r ↦ elim r.address [ none ↦ loopback_only | some addr ↦ reachable addr ]
  ]
