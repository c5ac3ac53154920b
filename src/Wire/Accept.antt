-- ===== src/Wire/Accept.antt =====
-- src/wire/mod.rs: the addresses that the server listens on, the loop that accepts connections, and the
-- sweep of the roster. What binding and the other calls of the operating system give are arguments.
pub mod Cap
pub mod Tests
use holler_server.Prelude.{
  ℕ, zero, suc, ◌-◌, ◌+◌, ◌^◌, Bool, true, false, not, String, List, [], ◌∷◌, Option, none, some,
  if◌then◌else◌, nat_beq,
}
use holler_server.Text.{codes, parse_unsigned}
use holler_server.Net.{IpAddr, v4, v6, SocketAddr, is_loopback}
use holler_server.Roster.{Roster, prune}

-- 127.0.0.1
abbrev pub localhost : IpAddr
localhost = v4 0x7F000001

pub data ListenParsed : Type 0 where
  ok : SocketAddr → ListenParsed
  err : List ℕ → ListenParsed

-- `parse` is `SocketAddr`'s own parser. A text is the list of its code points.
unfoldable pub parse_listen_spec : (List ℕ → Option SocketAddr) → List ℕ → ListenParsed
parse_listen_spec parse spec = elim (parse spec) [
  | some addr ↦ ListenParsed.ok addr
  | none ↦ elim (parse_unsigned (2 ^ 16) spec) [
    | some port ↦ ListenParsed.ok (record { ip = localhost; port = port })
    | none ↦ ListenParsed.err spec
  ]
]

-- The first address that is not loopback.
unfoldable pub not_loopback : List SocketAddr → Option SocketAddr
not_loopback [] = none
not_loopback (a ∷ addrs) =
    let later = not_loopback addrs in if is_loopback a.ip then later else some a

-- Why a server does not start: an address without TLS, or a call that failed.
pub data StartError : Type 0 where
  non_loopback_without_tls : SocketAddr → StartError
  failed : String → StartError

pub data Started (A : Type 0) : Type 0 where
  ok : A → Started A
  err : StartError → Started A

infixl 5 ◌>>=◌
abbrev pub ◌>>=◌ : {A B : Type 0} → Started A → (A → Started B) → Started B
Started.ok a >>= f = f a
Started.err e >>= f = Started.err e

-- What the calls of the operating system give, when they are made; binding an address gives the one
-- bound.
pub record System : Type 0 where
  pub hostname : Started String
  pub open_store : Started (Unit {0})
  pub bind_control_socket : Started (Unit {0})
  pub bind : SocketAddr → Started SocketAddr

unfoldable pub bind_all :
    (SocketAddr → Started SocketAddr) → List SocketAddr → Started (List SocketAddr)
bind_all bind [] = Started.ok []
bind_all bind (a ∷ addrs) = do bound ← bind a; rest ← bind_all bind addrs; Started.ok (bound ∷ rest)

unfoldable pub serve : System → List SocketAddr → Started (List SocketAddr)
unfolding not_loopback bind_all
serve sys addrs = elim (not_loopback addrs) [
  | some a ↦ Started.err (non_loopback_without_tls a)
  | none ↦ do
    hostname ← sys.hostname
    store ← sys.open_store
    control ← sys.bind_control_socket
    bind_all sys.bind addrs
]

-- What the shutdown channel says: a value, or that its sender is gone.
pub data News : Type 0 where
  changed : (stop : Bool) → News
  sender_gone : News

-- A connection by its number. Those that hold a slot have not got past their first frame.
pub record Accepting : Type 0 where
  pub slots : ℕ
  pub unauthenticated : List ℕ
  pub live : List ℕ
  pub accepts_more : Bool

unfoldable pub listening : ℕ → Accepting
listening max_unauth_connections = record {
  slots = max_unauth_connections;
  unauthenticated = [];
  live = [];
  accepts_more = true;
}

-- What happens to the loop and to the connections that it has spawned.
pub data Event : Type 0 where
  news : News → Event
  accepts : (id : ℕ) → Event
  accept_failed : Event
  authenticates ends : (id : ℕ) → Event

abbrev pub holds : ℕ → List ℕ → Bool
holds id [] = false
holds id (x ∷ xs) = let later = holds id xs in if nat_beq x id then true else later

-- Without the first occurrence.
abbrev pub without : ℕ → List ℕ → List ℕ
without id [] = []
without id (x ∷ xs) = let rest = without id xs in if nat_beq x id then xs else x ∷ rest

-- The slot of a connection is given back when it authenticates or ends, whichever is first.
unfoldable pub release : Accepting → ℕ → Accepting
release a id =
    if holds id a.unauthenticated
    then record a { slots = suc a.slots; unauthenticated = without id a.unauthenticated }
    else a

abbrev pub accepted : Accepting → ℕ → ℕ → Accepting
accepted a id zero = a
accepted a id (suc left) = record a { slots = left; unauthenticated = id ∷ a.unauthenticated }

unfoldable pub step : Accepting → Event → Accepting
unfolding release
step a (news (changed stop)) = if stop then record a { accepts_more = false } else a
step a (news sender_gone) = record a { accepts_more = false }
step a (accepts id) = if a.accepts_more then accepted a id a.slots else a
step a accept_failed = a
step a (authenticates id) =
    if holds id a.unauthenticated
    then (let r = release a id in record r { live = id ∷ r.live })
    else a
step a (ends id) = let r = release a id in record r { live = without id r.live }

unfoldable pub run : Accepting → List Event → Accepting
unfolding step
run a [] = a
run a (e ∷ es) = run (step a e) es

-- What wakes the sweep, and when.
pub data Wake : Type 0 where
  told : News → Wake
  tick : (now : ℕ) → Wake

unfoldable roster_prune_loop : List Wake → Roster → Roster
roster_prune_loop [] r = r
roster_prune_loop (told (changed stop) ∷ ws) r =
    let rest = roster_prune_loop ws r in if stop then r else rest
roster_prune_loop (told sender_gone ∷ ws) r = r
roster_prune_loop (tick now ∷ ws) r = roster_prune_loop ws (prune r now)
