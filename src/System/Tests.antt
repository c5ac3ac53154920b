-- ===== src/System/Tests.antt =====
-- The theorems about the running server at a server with one redeemed token.
use holler_server.Prelude.{
  if◌then◌else◌, ◌≡◌, refl, true, String, List, [], ◌∷◌, none, some, arith, string_eq,
}
use holler_server.Prelude.Dict.{get}
use holler_server.Token.Record.{TokenRecord, StoredState, VerifiedClient, is_blank}
use holler_server.Token.Disk.{Disk, load, with_lock, save}
use holler_server.Token.Records.{Stored, written, save-Stored}
use holler_server.Token.Secret.{require_pepper, verify_secret}
use holler_server.Token.Hex.{from_hex, from_pairs}
use holler_server.Text.{trim}
use holler_server.Text.Utf8.{as_bytes, is_char_boundary}
use holler_server.Token.Store.{
  find_record, change_record, authenticates, matches_hash, verify_credential,
  verify_credential_with_pepper,
}
use holler_server.Token.Tests.{empty, empty-Stored}
use holler_server.Token.Tests.Sample.{sample, sample-IsLawful, sample_from_json}
use holler_server.Proto.Json.{Value}
use holler_server.Proto.Codec.{from_wire, deserialize_value, value}
use holler_server.Proto.Decode.{decode, decode_value, parse_fields, try_from}
use holler_server.Lockout.{is_locked_out}
use holler_server.Wire.Registry.{Entry, new_entry, sends, superseded_notice, insert_client}
use holler_server.Wire.Registry.Waiting.{dropped}
use holler_server.Wire.Registry.Entries.{IsCalm, none_refl}
use holler_server.Wire.TalkLog.{succeeds}
use holler_server.Wire.Control.{Meets}
use holler_server.Wire.Connection.Session.{Script}
use holler_server.System.Backed.{IsBacked, connected_are_redeemed}
use holler_server.System.Window.{
  Over, IsOff, delete_and_revoke, deleted_stays_out, deleted_between_stays_connected,
}
use holler_server.System.Reconnect.{reconnected, winds_up, late_teardown_drops_reconnect}
use holler_server.System.Task.{Interlude, accepted as task_accepted, presented as task_presented}
use holler_server.Wire.Connection.{Server, Context}
use holler_server.Wire.Connection.Admission.{authenticated, first_frame, first_body, authenticate}
use holler_server.Wire.Connection.Tests.Sample.{
  moment, Contents, bound_record, ctx, server, peer, connects,
}
use holler_server.System.{
  System, before_first_frame, admitted, greeting, serving, Reach, here, next, accepts, gives_up,
  presents, registers, moved, assign, after_first,
}

-- The digest of a text is the pepper with the text, in hexadecimal digits.
abbrev pub redeemed : TokenRecord
redeemed = record bound_record { credential_hash = some "7065707065726b" }

abbrev pub live : Disk
live = written sample (redeemed ∷ []) empty

pub live-Stored : Stored sample (redeemed ∷ []) live
live-Stored = (save-Stored sample sample-IsLawful [] (redeemed ∷ []) empty empty-Stored).1

abbrev pub lawful : Context Contents
lawful = record ctx {
  platform = sample;
  serde = record ctx.serde { to_auth = λ x. value (record { credential = Value.string "k" }) };
}

abbrev pub begun : Server Contents
begun = record server { disk = live; registry = record { entries = []; confirmed_harnesses = [] } }

abbrev client : VerifiedClient
client = record { token_id = "tok_a"; client_id = "cli_a"; machine = "laptop" }

admits : (first_frame lawful peer (connects 5 "auth").attempt "auth" begun).1 ≡ authenticated client
unfolding first_frame first_body authenticate decode decode_value parse_fields try_from from_wire
    deserialize_value verify_credential verify_credential_with_pepper with_lock find_record
    change_record authenticates matches_hash from_hex as_bytes from_pairs load save is_blank
    is_char_boundary trim sample_from_json require_pepper verify_secret
admits = refl

abbrev pub start : System Contents
start = record { server = begun; tasks = λ k. none }

-- A connection of the client, up to its registration.
abbrev accepted : System Contents
accepted =
    moved start 0 (some before_first_frame)
      (record begun { lockout = (is_locked_out begun.lockout peer 5).0 })

abbrev presented : System Contents
presented =
    let (after, result) =
      first_frame lawful peer (connects 5 "auth").attempt "auth" accepted.server in
    moved accepted 0 (after_first result) after

abbrev put_in : System Contents
put_in = moved presented 0 (some (greeting client)) (record presented.server {
  registry = (insert_client presented.server.registry "tok_a" "cli_a" "laptop" 2).0;
})

waiting : presented.tasks 0 ≡ some (admitted client)
unfolding first_frame first_body authenticate decode decode_value parse_fields try_from from_wire
    deserialize_value verify_credential verify_credential_with_pepper with_lock find_record
    change_record authenticates matches_hash from_hex as_bytes from_pairs load save is_blank
    is_char_boundary trim sample_from_json require_pepper verify_secret is_locked_out
waiting = refl

path : Reach lawful start presented
unfolding is_locked_out get
path =
    next (next here (accepts 0 peer 5 refl refl))
      (presents 0 peer (connects 5 "auth").attempt "auth" refl refl)

connected_are_redeemed_example :
    (new : List TokenRecord) × Stored sample new put_in.server.disk
    × ((id : String) (e : Entry)
        → get put_in.server.registry.entries id ≡ some e
        → IsBacked new id e.client_id)
unfolding is_locked_out
connected_are_redeemed_example =
    connected_are_redeemed lawful sample-IsLawful start put_in (redeemed ∷ []) live-Stored refl
      (λ k. refl) (next path (registers 0 2 client waiting refl))

abbrev pub meets : Meets Contents
meets = record {
  now = 150;
  ts = "t";
  id = "p1";
  waiter = 7;
  world = record {
    at_register = λ g. g;
    at_send = λ g. g;
    at_wait = λ g. g;
    at_check = λ g. g;
    is_open = true;
  };
  pong = dropped;
  answered = dropped;
  events = [];
  interrupted = dropped;
  chosen = dropped;
  written = succeeds;
}

calm : IsCalm meets.world
calm = record {
  at_register = none_refl;
  at_send = none_refl;
  at_wait = none_refl;
  at_check = none_refl;
}

abbrev in_between : System Contents
in_between = record { server = begun; tasks = assign 0 (some (admitted client)) start.tasks }

deleted_between_stays_connected_example :
    let u = delete_and_revoke lawful meets "tok_a" 9 in_between in
    (get u.server.registry.entries "tok_a" ≡ none)
    × ((t : System Contents) × Reach lawful in_between t
        × Over lawful "tok_a" t
        × ((e : Entry) × (get t.server.registry.entries "tok_a" ≡ some e)))
unfolding find_record
deleted_between_stays_connected_example =
    deleted_between_stays_connected lawful sample-IsLawful in_between 0 9 2 client meets
      (redeemed ∷ []) redeemed calm live-Stored refl refl

-- The token of the server is revoked, and its client comes back.
abbrev revoked : TokenRecord
revoked = record redeemed { state = StoredState.revoked; credential_hash = none }

abbrev dead : Disk
dead = written sample (revoked ∷ []) empty

dead-Stored : Stored sample (revoked ∷ []) dead
dead-Stored = (save-Stored sample sample-IsLawful [] (revoked ∷ []) empty empty-Stored).1

abbrev cut_off : System Contents
cut_off = record { server = record begun { disk = dead }; tasks = λ k. none }

abbrev back : System Contents
back =
    moved cut_off 0 (some before_first_frame)
      (record cut_off.server { lockout = (is_locked_out begun.lockout peer 5).0 })

abbrev refused : System Contents
refused =
    let (after, result) = first_frame lawful peer (connects 5 "auth").attempt "auth" back.server in
    moved back 0 (after_first result) after

cut_off-IsOff : IsOff lawful "tok_a" cut_off
unfolding find_record get
cut_off-IsOff = record {
  ended = (revoked ∷ [], dead-Stored, (revoked, refl, refl));
  unconnected = refl;
  nobody_waits = λ j v h. absurd (ground (arith, h));
}

deleted_stays_out_example : IsOff lawful "tok_a" refused
unfolding is_locked_out get
deleted_stays_out_example =
    deleted_stays_out lawful sample-IsLawful cut_off refused "tok_a" cut_off-IsOff (
      next (next here (accepts 0 peer 5 refl refl))
        (presents 0 peer (connects 5 "auth").attempt "auth" refl refl))

-- While the connection waits for its first frame, another one is accepted; before it is registered, that
-- one gives up.
abbrev visited : Script Contents
visited = record (connects 5 "auth") {
  before_first = λ s. record s { lockout = (is_locked_out s.lockout peer 6).0 };
}

abbrev untouched : (s : System Contents) → Interlude lawful 0 (λ s. s) s
untouched s = record { after = s; path = here; shared = refl; stays = refl }

abbrev visitor_comes :
    Interlude lawful 0 visited.before_first (task_accepted lawful 0 visited start)
visitor_comes =
    let s = task_accepted lawful 0 visited start in
    record {
      after =
          moved s 1
            (if (is_locked_out s.server.lockout peer 6).1 then none else some before_first_frame)
            (record s.server { lockout = (is_locked_out s.server.lockout peer 6).0 });
      path = next here (accepts 1 peer 6 refl refl);
      shared = refl;
      stays = refl;
    }

visitor_waits :
    (task_presented lawful 0 visited "auth" visitor_comes.after).tasks 1 ≡ some before_first_frame
unfolding is_locked_out get
visitor_waits = refl

abbrev visitor_goes :
    Interlude lawful 0 visited.before_insert
      (task_presented lawful 0 visited "auth" visitor_comes.after)
visitor_goes =
    let s = task_presented lawful 0 visited "auth" visitor_comes.after in
    record {
      after = moved s 1 none s.server;
      path = next here (gives_up 1 visitor_waits refl);
      shared = refl;
      stays = refl;
    }

-- The client is served, and has authenticated again on another connection.
abbrev twice : System Contents
twice = record {
  server = record begun {
    registry = record {
      entries = ("tok_a", new_entry "cli_a" "laptop" 2) ∷ [];
      confirmed_harnesses = [];
    };
  };
  tasks = assign 1 (some (admitted client)) (assign 0 (some (serving client)) start.tasks);
}

late_teardown_drops_reconnect_example :
    let u = reconnected lawful 1 client 3 twice in
    let t = winds_up lawful 0 client (moment 5) u in
    Reach lawful twice u
    × Reach lawful u t
    × ((insert_client twice.server.registry "tok_a" "cli_a" "laptop" 3).1
        ≡ sends 2 superseded_notice ∷ [])
    × (get u.server.registry.entries "tok_a" ≡ some (new_entry "cli_a" "laptop" 3))
    × (get t.server.registry.entries "tok_a" ≡ none)
    × (t.tasks 0 ≡ none)
    × (t.tasks 1 ≡ some (serving client))
unfolding get
late_teardown_drops_reconnect_example =
    late_teardown_drops_reconnect lawful twice 0 1 3 client client (new_entry "cli_a" "laptop" 2)
      (moment 5) (λ e. absurd (ground (arith, e))) refl refl refl refl
