-- ===== src/Wire/Connection/Tests/Sample.antt =====
-- A server for the tests of src/wire/connection.rs: one bound token, four frames that decode, and a
-- session "main" of the token.
use holler_server.Prelude.{
  ℕ, refl, String, List, [], ◌∷◌, none, some, true, if◌then◌else◌, ◌==◌, string_eq,
}
use holler_server.Text.{trim}
use holler_server.Net.{IpAddr, v4}
use holler_server.Roster.{RosterConfig, RosterEntry}
use holler_server.Roster.Steps.{fresh_row}
use holler_server.Token.Record.{StoredState, TokenRecord, Platform, ok, is_blank}
use holler_server.Token.Disk.{Disk, File, load}
use holler_server.Token.Secret.{bytes}
use holler_server.Token.Records.{Stored}
use holler_server.Proto.Json.{Value, field, no_fields, unsigned}
use holler_server.Proto.Codec.{SerdeJson, Serde, value, failed}
use holler_server.Wire.Registry.{new_entry}
use holler_server.Wire.TalkLog.{TalkEntry, succeeds}
use holler_server.Wire.Connection.{Server, Context, Incoming, PresenceSession}
use holler_server.Wire.Connection.Dispatch.{Moment}
use holler_server.Wire.Connection.Session.{Script, incoming}

abbrev pub Contents : Type 0
Contents = List TalkEntry

abbrev pub bound_record : TokenRecord
bound_record = record {
  token_id = "tok_a";
  secret_hash = "";
  state = StoredState.bound;
  label = none;
  machine = some "laptop";
  client_id = some "cli_a";
  credential_hash = some "";
  created_at = "t";
  expires = "t";
  last_seen = none;
}

-- A digest without bytes, so that any credential of the token matches.
abbrev pub platform : Platform
platform = record {
  hmac = λ key message. [];
  format = λ t. ok "t";
  parse = λ s. none;
  later = λ t d. ok t;
  to_json = λ rs. ok "records";
  from_json = λ s. ok (bound_record ∷ []);
}

abbrev pub disk : Disk
disk = record { file = File.text "records"; lock_error = none; write_error = none }

pub disk-Stored : Stored platform (bound_record ∷ []) disk
unfolding load is_blank trim
disk-Stored = record { reads = refl; unlocked = refl; writable = refl }

abbrev envelope : String → String → Value
envelope type from = Value.object (
    field "type" (Value.string type) (
      field "v" (Value.number (unsigned 1)) (
        field "id" (Value.string "f1") (
          field "ts" (Value.string "t")
            (field "from" (Value.string from) (field "body" Value.null no_fields))))))

abbrev no_body : {A : Type 0} → Value → Serde A
no_body x = failed "not read"

-- A text stands for the frame of its name.
abbrev serde : SerdeJson
serde = record {
  from_str = λ s.
      if s == "auth"
      then value (envelope "auth" "tok_a")
      else if s == "guess"
      then value (envelope "auth" "tok_b")
      else if s == "ping"
      then value (envelope "ping" "tok_a")
      else if s == "presence"
      then value (envelope "presence" "tok_b")
      else failed "not JSON";
  to_join = no_body;
  to_join_ok = no_body;
  to_auth = λ x. value (record { credential = Value.string "hlr_live_0" });
  to_hello = no_body;
  to_query = no_body;
  to_query_ok = no_body;
  to_prompt = no_body;
  to_reply = no_body;
  to_interrupt = no_body;
  to_answer = no_body;
  to_presence = λ x. value (record { sessions = Value.null ∷ [] });
  to_session_blocked = no_body;
  to_ping = λ x. value (record { hostname = none });
  to_pong = no_body;
  to_ack = no_body;
  to_error = no_body;
}

-- Each row announces the session "main".
abbrev pub announced : PresenceSession
announced = record { name = "main"; harness = "opencode"; mode = none; harness_session_id = none }

abbrev pub ctx : Context Contents
ctx = record {
  platform = platform;
  serde = serde;
  to_session = λ x. value announced;
  talk_json = record { to_string = λ entries. entries; from_str = λ contents. some contents };
  shown = λ n. "n";
  quoted = λ s. s;
  pepper = some "pepper";
  server_hostname = "hub";
  listening = [];
  limits = record { max_frame_bytes = 100; pre_auth_timeout = 20; max_unauth_connections = 2 };
}

abbrev config : RosterConfig
config = record { reconnect_after = 45; gone_after = 180; prune_after = 360; sweep_interval = 30 }

abbrev pub main_row : RosterEntry
main_row = fresh_row 100 "opencode" "tok_a" "cli_a" none none

abbrev pub server : Server Contents
server = record {
  disk = disk;
  lockout = record { by_ip = []; max_failures = 2; window = 50; lockout_duration = 60 };
  registry = record {
    entries = ("tok_a", new_entry "cli_a" "laptop" 1) ∷ [];
    confirmed_harnesses = [];
  };
  roster = record { entries = ("main", main_row) ∷ []; config = config };
  talks = [];
}

abbrev pub moment : ℕ → Moment Contents
moment now = record { instant = λ k. now; ts = "t"; written = succeeds }

abbrev pub peer : IpAddr
peer = v4 7

-- A connection accepted at a time, whose first frame is handled then too.
abbrev pub connects : ℕ → String → Script Contents
connects now raw = record {
  peer = peer;
  accepted_at = now;
  handshakes = true;
  first = (1, Incoming.ping) ∷ (2, Incoming.text raw) ∷ [];
  before_first = λ s. s;
  attempt = record { wall = now; instant = now; id_bytes = bytes []; credential_bytes = bytes [] };
  before_insert = λ s. s;
  channel = 2;
  hello_id = "h";
  hello_ts = "t";
  hello_written = true;
  turns =
      record { others = λ s. s; happening = incoming (Incoming.text "ping"); moment = moment now }
      ∷ record { others = λ s. s; happening = incoming Incoming.close; moment = moment now }
      ∷ [];
  before_removal = λ s. s;
}
