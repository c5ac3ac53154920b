-- ===== src/Command.antt =====
-- src/main.rs: how a command's arguments and variables become what it runs, and `serve`. The parser of the
-- command line, and what a started server does until it is told to stop are left out. A text that is
-- taken apart is the list of its code points.
pub mod Start
pub mod Table
pub mod Tokens
pub mod Deletion
pub mod Talk
pub mod Answers
pub mod Tests
use Prim.Native.String.{◌++◌ as append}
use holler_server.Prelude.{
  ℕ, Bool, true, false, not, ◌&&◌, String, List, [], ◌∷◌, ◌++◌, Option, none, some, if◌then◌else◌,
  nat_beq, ◌==◌, string_eq,
}
use holler_server.Text.{codes, trim}
use holler_server.Net.{SocketAddr}
use holler_server.Proto.{ErrorBody, QueryOkBody}
use holler_server.Advertise.{Json, Write, resolve_advertise, persist}
use holler_server.Debug.{DebugConfig, Parsed, resolve_level, resolve_format}
use holler_server.Wire.Accept.{ListenParsed, parse_listen_spec, StartError, Started, System, serve}
use holler_server.Wire.Query.{Answered, dispatch}
use holler_server.Wire.Control.{QueryReply}

-- `split(',')`: the pieces between the commas.
abbrev in_front : ℕ → List (List ℕ) → List (List ℕ)
in_front c [] = (c ∷ []) ∷ []
in_front c (piece ∷ pieces) = (c ∷ piece) ∷ pieces

unfoldable pub split_commas : List ℕ → List (List ℕ)
split_commas [] = [] ∷ []
split_commas (c ∷ s) =
    let rest = split_commas s in if nat_beq c b',' then [] ∷ rest else in_front c rest

abbrev pub trimmed : List (List ℕ) → List (List ℕ)
trimmed [] = []
trimmed (piece ∷ pieces) =
    let rest = trimmed pieces in elim (trim piece) [ [] ↦ rest | c ∷ s ↦ (c ∷ s) ∷ rest ]

unfoldable pub listen_specs : List (List ℕ) → Option (List ℕ) → List (List ℕ)
unfolding split_commas
listen_specs (flag ∷ flags) env = flag ∷ flags
listen_specs [] (some value) = trimmed (split_commas value)
listen_specs [] none = codes "127.0.0.1:41807" ∷ []

-- A value, or the text that is refused.
pub data Resolved (A : Type 0) : Type 0 where
  ok : A → Resolved A
  err : List ℕ → Resolved A

abbrev pub and_then : {A B : Type 0} → Resolved A → (A → Resolved B) → Resolved B
and_then (Resolved.ok a) f = f a
and_then (Resolved.err e) f = Resolved.err e

abbrev listen_addr : ListenParsed → Resolved SocketAddr
listen_addr (ListenParsed.ok a) = Resolved.ok a
listen_addr (ListenParsed.err spec) = Resolved.err spec

unfoldable parse_all : (List ℕ → Option SocketAddr) → List (List ℕ) → Resolved (List SocketAddr)
unfolding parse_listen_spec
parse_all parse [] = Resolved.ok []
parse_all parse (spec ∷ specs) =
    and_then (listen_addr (parse_listen_spec parse spec))
      (λ a. and_then (parse_all parse specs) (λ addrs. Resolved.ok (a ∷ addrs)))

unfoldable resolve_listen_addrs :
    (List ℕ → Option SocketAddr) → List (List ℕ) → Option (List ℕ) → Resolved (List SocketAddr)
unfolding listen_specs parse_all
resolve_listen_addrs parse flags env = parse_all parse (listen_specs flags env)

abbrev parsed : {A : Type 0} → Parsed A → Resolved A
parsed (Parsed.ok a) = Resolved.ok a
parsed (Parsed.err e) = Resolved.err e

unfoldable resolve_debug_config :
    Option (List ℕ) → Option (List ℕ) → Option (List ℕ) → Option (List ℕ) → Resolved DebugConfig
resolve_debug_config debug_flag debug_env format_flag format_env =
    and_then (parsed (resolve_level debug_flag debug_env)) (λ level.
      and_then (parsed (resolve_format format_flag format_env))
        (λ format. Resolved.ok (record { level = level; format = format })))

-- How `serve` fails to run.
pub data ServeError : Type 0 where
  listen_spec : List ℕ → ServeError
  store : ServeError
  advertise : ServeError
  start : StartError → ServeError

pub data Ran : Type 0 where
  listening : List SocketAddr → Ran
  failed : ServeError → Ran

-- What a `serve` command is given and meets.
pub record ServeArgs (Contents : Type 0) : Type 0 where
  pub listen : List (List ℕ)
  pub listen_env : Option (List ℕ)
  pub advertise : Option String
  pub opens_store : Bool
  pub written : Write Contents
  pub system : System

abbrev pub of_started : Started (List SocketAddr) → Ran
of_started (Started.ok bound) = listening bound
of_started (Started.err e) = failed (start e)

module _ {Contents : Type 0} (j : Json Contents) (parse : List ℕ → Option SocketAddr)
    (shown : SocketAddr → String) where
  -- What remains once the addresses are known: the file is written, and then the server is started.
  unfoldable pub persist_and_serve :
      ServeArgs Contents → List SocketAddr → Option Contents → Ran × Option Contents
  persist_and_serve args addrs before =
      let (written, after) =
        persist j args.written (resolve_advertise shown args.advertise addrs) before in
      if args.opens_store
      then (if written
          then (of_started (serve args.system addrs), after)
          else (failed ServeError.advertise, after))
      else (failed ServeError.store, before)

  unfoldable run_serve : ServeArgs Contents → Option Contents → Ran × Option Contents
  unfolding persist_and_serve resolve_listen_addrs
  run_serve args before = elim (resolve_listen_addrs parse args.listen args.listen_env) [
    | Resolved.err spec ↦ (failed (listen_spec spec), before)
    | Resolved.ok addrs ↦ persist_and_serve args addrs before
  ]

abbrev known_query_cmds : List String
known_query_cmds = "status" ∷ "caps" ∷ "support" ∷ "protocol" ∷ []

-- What a query command asks whom.
pub record Asked : Type 0 where
  pub target : Option String
  pub cmd : String
  pub args : List String

abbrev pub known : List String → String → Bool
known [] cmd = false
known (x ∷ xs) cmd = let later = known xs cmd in if x == cmd then true else later

-- The words of `query`, of which there is at least one.
unfoldable pub query_words : String → List String → Asked
query_words cmd [] = record { target = none; cmd = cmd; args = [] }
query_words first (second ∷ rest) =
    if known known_query_cmds first
    then record { target = none; cmd = first; args = second ∷ rest }
    else record { target = some first; cmd = second; args = rest }

-- The words of `support`, of which there are one or two.
unfoldable support_words : String → Option String → Asked
support_words feature none = record { target = none; cmd = "support"; args = feature ∷ [] }
support_words target (some feature) = record {
  target = some target;
  cmd = "support";
  args = feature ∷ [];
}

-- The result of a query command: what is printed, or the error.
pub data Queried : Type 0 where
  ok : QueryOkBody → Queried
  err : ErrorBody → Queried
  no_match no_server no_hostname : Queried

abbrev local_answer : Answered → Queried
local_answer (Answered.ok body) = Queried.ok body
local_answer (Answered.err e) = Queried.err e

-- With no server to ask, an untargeted query is answered by this binary.
abbrev without_server : (String → String) → Option String → Asked → Queried
without_server quoted hostname asked = elim asked.target [
  | some target ↦ no_server
  | none ↦ elim hostname [
    | none ↦ no_hostname
    | some name ↦ local_answer (
        dispatch quoted asked.cmd asked.args
          (record { hostname = name; listening = []; clients = 0; sessions = 0; confirmed = [] }))
  ]
]

unfoldable run_query_command :
    (String → String) → Option String → Asked → Option QueryReply → Queried
run_query_command quoted hostname asked (some (QueryReply.ok body)) = Queried.ok body
run_query_command quoted hostname asked (some (QueryReply.err e)) = Queried.err e
run_query_command quoted hostname asked (some QueryReply.not_connected) = elim asked.target [
  | some target ↦ no_match
  | none ↦ without_server quoted hostname asked
]
run_query_command quoted hostname asked none = without_server quoted hostname asked
