-- ===== src/Command/Tests.antt =====
-- The theorems about src/main.rs at a start that is refused and at one that is not.
pub mod Operator
use holler_server.Prelude.{◌≡◌, refl, true, String, List, [], ◌∷◌, none, some, All, length}
use holler_server.Text.{codes, trim}
use holler_server.Net.{SocketAddr, v4, is_loopback}
use holler_server.Advertise.{Json, succeeds, AdvertiseRecord, reachable, loopback_only, read}
use holler_server.Wire.Accept.{
  System, Started, serve, localhost, non_loopback_without_tls, not_loopback, bind_all,
}
use holler_server.Command.{
  ServeArgs, persist_and_serve, listening, failed, start, query_words, listen_specs, split_commas,
}
use holler_server.Command.Start.{serves_loopback_only, advertised_only_if_refused}

abbrev works : System
works = record {
  hostname = Started.ok "hub";
  open_store = Started.ok tt;
  bind_control_socket = Started.ok tt;
  bind = λ a. Started.ok a;
}

abbrev home : SocketAddr
home = record { ip = localhost; port = 41807 }

-- 192.168.1.5
abbrev lan : SocketAddr
lan = record { ip = v4 0xC0A80105; port = 41807 }

serves_loopback_only_example :
    All (λ (a : SocketAddr). is_loopback a.ip ≡ true) (home ∷ [])
    × (length {A = SocketAddr} (home ∷ []) ≡ length {A = SocketAddr} (home ∷ []))
unfolding serve not_loopback bind_all
serves_loopback_only_example = serves_loopback_only works (home ∷ []) (home ∷ []) refl

abbrev kept : Json AdvertiseRecord
kept = record { to_string = λ r. r; from_str = λ r. some r }

abbrev args : ServeArgs AdvertiseRecord
args = record {
  listen = codes "192.168.1.5:41807" ∷ [];
  listen_env = none;
  advertise = none;
  opens_store = true;
  written = succeeds;
  system = works;
}

advertised_only_if_refused_example :
    let (ran, after) = persist_and_serve kept (λ s. none) (λ a. "addr") args (lan ∷ []) none in
    ((bound : List SocketAddr) → ran ≡ listening bound → read kept after ≡ loopback_only)
    × ((text : String)
        → read kept after ≡ reachable text
        → (a : SocketAddr) × (ran ≡ failed (start (non_loopback_without_tls a))))
advertised_only_if_refused_example =
    advertised_only_if_refused kept (λ a. "addr") (λ s. none) args (lan ∷ []) none (λ r. refl) refl
      refl refl

comma_list : listen_specs [] (some (codes "1, 2,,")) ≡ codes "1" ∷ codes "2" ∷ []
unfolding listen_specs split_commas trim
comma_list = refl

target_first :
    query_words "laptop" ("status" ∷ [])
    ≡ record { target = some "laptop"; cmd = "status"; args = [] }
unfolding query_words
target_first = refl
