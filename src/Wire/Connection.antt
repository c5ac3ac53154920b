-- ===== src/Wire/Connection.antt =====
-- src/wire/connection.rs: one task per connection. The objects that the tasks share are the record
-- `Server`; what comes from outside the program is in `Context`.
pub mod Admission
pub mod Dispatch
pub mod Session
pub mod Gate
pub mod Deleted
pub mod Guesses
pub mod Calls
pub mod Isolation
pub mod Heartbeat
pub mod Teardown
pub mod Replies
pub mod Cases
pub mod Typed
pub mod Presence
pub mod Tests
use Prim.Native.String.{◌++◌ as append}
use holler_server.Prelude.{
  ℕ, ◌*◌, ◌^◌, Bool, true, false, String, List, [], ◌∷◌, Option, none, some, if◌then◌else◌, ltb,
}
use holler_server.Text.{trim, parse_unsigned}
use holler_server.Lockout.{LockoutTracker}
use holler_server.Token.Record.{Platform}
use holler_server.Token.Disk.{Disk}
use holler_server.Roster.{Roster, millisecond, second}
use holler_server.Proto.Json.{Value}
use holler_server.Proto.{Envelope, error_with_message}
use holler_server.Proto.Codec.{
  SerdeJson, Serde, DecodeError, unsupported_version, unknown_type, malformed,
}
use holler_server.Wire.Registry.{Registry}
use holler_server.Wire.TalkLog.{Files, Json}

pub record ConnectionLimits : Type 0 where
  pub max_frame_bytes : ℕ
  pub pre_auth_timeout : ℕ
  pub max_unauth_connections : ℕ

unfoldable default_limits : ConnectionLimits
default_limits = record {
  max_frame_bytes = 2 * 1024 * 1024;
  pre_auth_timeout = 20 * second;
  max_unauth_connections = 75;
}

-- A variable that is set, is text, and is a number of 64 bits.
unfoldable env_parsed : (String → Option (List ℕ)) → String → Option ℕ
env_parsed env key = elim (env key) [ none ↦ none | some v ↦ parse_unsigned (2 ^ 64) (trim v) ]

abbrev millis_or : Option ℕ → ℕ → ℕ
millis_or none d = d
millis_or (some n) d = n * millisecond

abbrev number_or : Option ℕ → ℕ → ℕ
number_or none d = d
number_or (some n) d = n

unfoldable limits_from_env : (String → Option (List ℕ)) → ConnectionLimits
unfolding default_limits env_parsed
limits_from_env env = record {
  max_frame_bytes =
      number_or (env_parsed env "HOLLER_MAX_FRAME_BYTES") default_limits.max_frame_bytes;
  pre_auth_timeout =
      millis_or (env_parsed env "HOLLER_PRE_AUTH_TIMEOUT_MS") default_limits.pre_auth_timeout;
  max_unauth_connections =
      number_or (env_parsed env "HOLLER_MAX_UNAUTH_CONNECTIONS")
        default_limits.max_unauth_connections;
}

pub record PresenceSession : Type 0 where
  pub name : String
  pub harness : String
  pub mode : Option String
  pub harness_session_id : Option String

-- The shared objects: the state directory of the store, the lockout tracker, the registry, the roster
-- and the files of the talk log.
pub record Server (Contents : Type 0) : Type 0 where
  pub disk : Disk
  pub lockout : LockoutTracker
  pub registry : Registry
  pub roster : Roster
  pub talks : Files Contents

-- What does not change while the program runs: the other crates, the environment, and the
-- configuration. `shown` and `quoted` are Rust's `{}` of a number and `{:?}` of a text.
pub record Context (Contents : Type 0) : Type 0 where
  pub platform : Platform
  pub serde : SerdeJson
  pub to_session : Value → Serde PresenceSession
  pub talk_json : Json Contents
  pub shown : ℕ → String
  pub quoted : String → String
  pub pepper : Option String
  pub server_hostname : String
  pub listening : List String
  pub limits : ConnectionLimits

-- What the stream of a connection yields. A frame that is too long is a read error.
pub data Incoming : Type 0 where
  text : String → Incoming
  ping pong close eof binary failed : Incoming

-- What is written to a connection.
pub data Sent : Type 0 where
  frame : Envelope → Sent
  pong close : Sent

abbrev pub code_unauthenticated : String
code_unauthenticated = "unauthenticated"

abbrev pub code_join_failed : String
code_join_failed = "join_failed"

abbrev code_unsupported_version : String
code_unsupported_version = "unsupported_version"

abbrev pub code_unknown_type : String
code_unknown_type = "unknown_type"

unfoldable pub decode_error_envelope : (ℕ → String) → DecodeError → Envelope
decode_error_envelope shown (unsupported_version v) =
    error_with_message code_unsupported_version (append "unsupported protocol version " (shown v))
      "" "server"
decode_error_envelope shown unknown_type =
    error_with_message code_unknown_type "unknown message type" "" "server"
decode_error_envelope shown (malformed message) =
    error_with_message code_unknown_type (append "malformed frame: " message) "" "server"

-- The first text of a stream, with what follows it: none if anything but a ping or a pong precedes it,
-- or if the stream yields nothing more.
unfoldable pub next_text_frame : List Incoming → Option (String × List Incoming)
next_text_frame [] = none
next_text_frame (text t ∷ rest) = some (t, rest)
next_text_frame (ping ∷ rest) = next_text_frame rest
next_text_frame (pong ∷ rest) = next_text_frame rest
next_text_frame (_ ∷ rest) = none

-- What the stream yields before a time limit, from what it yields when.
unfoldable pub in_time : ℕ → List (ℕ × Incoming) → List Incoming
in_time limit [] = []
in_time limit ((at, item) ∷ rest) =
    let later = in_time limit rest in if ltb at limit then item ∷ later else []
