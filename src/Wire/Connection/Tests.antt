-- ===== src/Wire/Connection/Tests.antt =====
-- The theorems about src/wire/connection.rs at a server with one bound token.
pub mod Sample
use holler_server.Prelude.{
  ℕ, ◌+◌, ◌<◌, ◌≤◌, ◌-◌, ◌≡◌, ◌≢◌, ◌⊎◌, ◌↔◌, refl, true, false, String, List, [], ◌∷◌, none, some,
  arith, All, eq_iff, string_eq, inl, inr,
}
use holler_server.Prelude.Dict.{get}
use holler_server.Prelude.Dict.Unique.{Unique}
use holler_server.Lockout.{record_failure}
use holler_server.Token.Record.{VerifiedClient, err, not_found, is_blank}
use holler_server.Token.Disk.{load, with_lock}
use holler_server.Token.Secret.{require_pepper, verify_secret}
use holler_server.Token.Hex.{from_hex, from_pairs}
use holler_server.Text.{trim}
use holler_server.Text.Utf8.{as_bytes}
use holler_server.Token.Store.{
  find_record, change_record, authenticates, matches_hash, verify_credential,
  verify_credential_with_pepper,
}
use holler_server.Token.Store.{delete}
use holler_server.Token.Lifecycle.{run as store_run}
use holler_server.Token.Tests.{bound_record as stored_record, one, one-Stored, calls}
use holler_server.Token.Tests.Sample.{sample, sample-IsLawful}
use holler_server.Wire.Connection.Typed.{IsTyped, written_frames_match}
use holler_server.Wire.Connection.Deleted.{deleted_never_enters}
use holler_server.Proto.{Body, AuthBody, PingBody, Envelope, MessageType}
use holler_server.Proto.Json.{Value}
use holler_server.Proto.Codec.{Decoded, DecodeError, from_wire, deserialize_value, malformed}
use holler_server.Proto.Decode.{decode, decode_value, parse_fields, try_from}
use holler_server.Roster.{resolve_session, is_gone, state_at, conflicts}
use holler_server.Roster.Ownership.{Held, held}
use holler_server.Wire.Connection.{
  Context, Server, Sent, frame, decode_error_envelope, next_text_frame, in_time,
}
use holler_server.Wire.Connection.Admission.{authenticated, first_frame, first_body, authenticate}
use holler_server.Wire.Connection.Dispatch.{handle_frame}
use holler_server.Wire.Connection.Session.{
  Ran, ran, over, serve_client, handle_connection, session_loop, take_turn,
}
use holler_server.Wire.Connection.Gate.{Entered, SameLive, only_credentials_enter}
use holler_server.Wire.Connection.Guesses.{IsGuess, serve_all, guessing_locks_out}
use holler_server.Wire.Connection.Isolation.{Confined, Remains, RepliesTo, frame_isolates}
use holler_server.Wire.Connection.Heartbeat.{
  Received, Kept, theirs, pings, no_more, handle_all, pinging_client_stays_routed,
}
use holler_server.Wire.Connection.Presence.{presence_routes, here}
use holler_server.Wire.Connection.Replies.{AnsweredOnce, malformed_closes}
use holler_server.Wire.Connection.Teardown.{
  session_ends, LeavesIn, Unrouted, loop_of, registered_for,
}
use holler_server.Wire.Connection.Tests.Sample.{
  Contents, bound_record, disk-Stored, announced, ctx, main_row, server, moment, peer, connects,
}

abbrev client : VerifiedClient
client = record { token_id = "tok_a"; client_id = "cli_a"; machine = "laptop" }

abbrev decoded : MessageType → String → Body → Envelope
decoded t from body = record { v = 1; msg_type = t; id = "f1"; ts = "t"; from = from; body = body }

abbrev auth_body : AuthBody
auth_body = record { credential = Value.string "hlr_live_0" }

admits_auth :
    (first_frame ctx peer (connects 5 "auth").attempt "auth" server).1 ≡ authenticated client
unfolding first_frame first_body authenticate decode decode_value parse_fields try_from from_wire
    deserialize_value verify_credential verify_credential_with_pepper with_lock load find_record
    change_record authenticates matches_hash is_blank trim from_hex as_bytes from_pairs
admits_auth = refl

only_credentials_enter_example :
    Entered ctx peer (connects 5 "auth").attempt (bound_record ∷ []) "auth" client
    × SameLive server (first_frame ctx peer (connects 5 "auth").attempt "auth" server).0
only_credentials_enter_example =
    only_credentials_enter ctx peer (connects 5 "auth").attempt (bound_record ∷ []) "auth" server
      client disk-Stored admits_auth

is_guess : (now : ℕ) → IsGuess ctx peer server.disk (connects now "guess")
unfolding decode decode_value parse_fields try_from from_wire deserialize_value verify_credential
    verify_credential_with_pepper with_lock load find_record is_blank trim next_text_frame in_time
    as_bytes
is_guess now = record {
  peer = refl;
  handshakes = refl;
  alone = λ s. refl;
  raw = "guess";
  rest = [];
  arrives = refl;
  env = decoded MessageType.auth "tok_b" (Body.auth auth_body);
  auth = auth_body;
  credential = "hlr_live_0";
  error = not_found "tok_b";
  decodes = refl;
  is_auth = refl;
  is_text = refl;
  refused = refl;
}

guessing_locks_out_example :
    let s' =
      (handle_connection ctx
        (connects 30 "guess")
        (serve_all ctx (connects 10 "guess" ∷ []) server)).server in
    handle_connection ctx (connects 89 "auth") s' ≡ ran s' [] (over false)
unfolding get
guessing_locks_out_example =
    guessing_locks_out ctx peer 10 server (connects 10 "guess" ∷ []) (connects 30 "guess")
      (connects 89 "auth") refl (omega arith) refl (is_guess 10, tt) (is_guess 30)
      ((omega arith, omega arith), tt) (omega arith) (omega arith) refl (omega arith)

b_not_a : ◌≢◌ {A = String} "tok_b" "tok_a"
b_not_a = ground (arith, eq_iff "tok_b" "tok_a")

server-Unique : Unique server.roster.entries
unfolding get
server-Unique = (refl, tt)

frame_isolates_example :
    let s' = (handle_frame ctx "tok_b" "cli_b" (moment 150) "presence" server).server in
    Confined ctx "tok_b" "cli_b" server s'
    × Remains main_row (get s'.roster.entries "main")
    × ((get s'.talks "main.json" ≡ get server.talks "main.json")
        ⊎ RepliesTo ctx "tok_b" "cli_b" "presence" server "main.json")
unfolding get state_at
frame_isolates_example =
    frame_isolates ctx "tok_b" "cli_b" (moment 150) "presence" server "main" "main.json" main_row
      server-Unique refl b_not_a (λ k. refl)

abbrev frames : List (Received Contents)
frames =
    record { token_id = "tok_b"; client_id = "cli_b"; moment = moment 200; raw = "presence" }
    ∷ record { token_id = "tok_a"; client_id = "cli_a"; moment = moment 250; raw = "ping" }
    ∷ record { token_id = "tok_b"; client_id = "cli_b"; moment = moment 400; raw = "presence" }
    ∷ []

decodes_ping :
    decode ctx.serde "ping"
    ≡ Decoded.ok (decoded MessageType.ping "tok_a" (Body.ping (record { hostname = none })))
unfolding decode decode_value parse_fields try_from from_wire deserialize_value
decodes_ping = refl

pinging_client_stays_routed_example :
    resolve_session (handle_all ctx frames server).roster 420 "main" ≡ some "tok_a"
unfolding get
pinging_client_stays_routed_example =
    pinging_client_stays_routed ctx server "tok_a" "main" 100 250 420 frames (omega arith)
      server-Unique (held main_row refl refl refl refl)
      (theirs b_not_a (λ k. omega arith)
        (pings refl decodes_ping refl (theirs b_not_a (λ k. omega arith) no_more)))
      (omega arith)

decodes_presence :
    decode ctx.serde "presence"
    ≡ Decoded.ok (
        decoded MessageType.presence "tok_b"
          (Body.presence (record { sessions = Value.null ∷ [] })))
unfolding decode decode_value parse_fields try_from from_wire deserialize_value
decodes_presence = refl

-- The row of the first client is gone by then.
presence_routes_example :
    resolve_session
      (handle_frame ctx "tok_b" "cli_b" (moment 500) "presence" server).server.roster
      600
      "main"
    ≡ some "tok_b"
unfolding get conflicts state_at
presence_routes_example =
    presence_routes ctx "tok_b" "cli_b" (moment 500) "presence" _ _ server "main" 600
      decodes_presence refl (here announced refl refl) (λ k. refl) (λ k. omega arith)

malformed_closes_example :
    let r = handle_frame ctx "tok_a" "cli_a" (moment 5) "{" server in
    ((e : DecodeError) × (decode ctx.serde "{" ≡ Decoded.err e)
      × (r.stays ≡ false)
      × (r.sent ≡ frame (decode_error_envelope ctx.shown e) ∷ [])
      × (r.server ≡ server)
      × (r.effects ≡ []))
    ⊎ ((env : Envelope) × (decode ctx.serde "{" ≡ Decoded.ok env)
        × (r.stays ≡ true)
        × AnsweredOnce ctx "tok_a" "cli_a" env r.sent)
malformed_closes_example = malformed_closes ctx "tok_a" "cli_a" (moment 5) "{" server

session_ends_example :
    let c = connects 150 "auth" in
    let r = (serve_client ctx c client server).server in
    (get r.registry.entries "tok_a" ≡ none)
    × ((true ≡ true) ↔ LeavesIn ctx client c.turns (registered_for ctx c client server))
    × (LeavesIn ctx client c.turns (registered_for ctx c client server)
        → Unrouted ctx "tok_a" r.roster)
    × ((true ≡ false) → r.roster ≡ (c.before_removal (loop_of ctx c client server).server).roster)
unfolding serve_client session_loop take_turn handle_frame decode decode_value parse_fields try_from
    from_wire deserialize_value
session_ends_example = session_ends ctx (connects 150 "auth") client server true refl refl

-- The sample server with a lawful store, from which the token was deleted.
abbrev lawful : Context Contents
lawful = record ctx { platform = sample }

written_frames_match_example : All IsTyped (handle_connection ctx (connects 5 "auth") server).sent
written_frames_match_example =
    written_frames_match ctx (connects 5 "auth") server
      (λ env w h. absurd (ground (arith, h)), (λ env w h. absurd (ground (arith, h)), tt))
