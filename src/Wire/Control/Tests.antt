-- ===== src/Wire/Control/Tests.antt =====
-- The theorems about src/wire/control.rs at the server of the tests of src/wire/connection.rs.
use holler_server.Prelude.{
  ℕ, map, Option, List, ◌≡◌, ◌≢◌, ◌⊎◌, refl, true, false, String, [], ◌∷◌, none, some, arith,
  eq_iff, if◌then◌else◌, ◌==◌, string_eq,
}
use holler_server.Prelude.Dict.{get}
use holler_server.Proto.Json.{Value, field, no_fields}
use holler_server.Proto.{QueryOkBody, ReplyBody}
use holler_server.Roster.{resolve_session, state_at}
use holler_server.Wire.Frames.{new_prompt_envelope}
use holler_server.Wire.Registry.{Entry, new_entry, sends, PromptEvent, PendingQueryReply}
use holler_server.Wire.Registry.Waiting.{World, received, dropped, concat}
use holler_server.Wire.Registry.Prompts.{pieces}
use holler_server.Wire.TalkLog.{succeeds, record_prompt}
use holler_server.Wire.Connection.Tests.Sample.{Contents, ctx, server}
use holler_server.Wire.Control.{Request, Response, SayReply, Meets, unknown_session, handle_request}
use holler_server.Wire.Control.Requests.{revoke_cuts_off, say_round_trip}
use holler_server.Wire.Control.Confirmed.{IsQuiet, IsConfirming, confirmed_by_support}
use holler_server.Wire.Control.Lines.{
  Line, handle_control_conn, requests, asks, answers, answered_in_order,
}
use holler_server.Token.Record.{is_blank}
use holler_server.Text.{trim}
use holler_server.Wire.Control.Socket.{
  Place, Event, starts, crashes, already_running, bind_control_socket, control_socket_is_live,
  shut_down, works, taken, run as run_events, one_server, both_start,
}

abbrev alone : World
alone = record {
  at_register = λ g. g;
  at_send = λ g. g;
  at_wait = λ g. g;
  at_check = λ g. g;
  is_open = true;
}

abbrev partial : ReplyBody
partial = record { session = "main"; text = some "he"; chunks = []; done = false; exit = none }

abbrev last : ReplyBody
last = record { session = "main"; text = none; chunks = "l" ∷ "lo" ∷ []; done = true; exit = none }

abbrev yes_body : QueryOkBody
yes_body = record { cmd = "support"; rest = Value.object (field "ok" (Value.bool true) no_fields) }

abbrev meets : Meets Contents
meets = record {
  now = 150;
  ts = "t";
  id = "p1";
  waiter = 7;
  world = alone;
  pong = dropped;
  answered = received (PendingQueryReply.ok yes_body);
  events = PromptEvent.reply partial ∷ PromptEvent.reply last ∷ [];
  interrupted = dropped;
  chosen = dropped;
  written = succeeds;
}

abbrev client : Entry
client = new_entry "cli_a" "laptop" 1

a_not_b : ◌≢◌ {A = String} "tok_a" "tok_b"
a_not_b = ground (arith, eq_iff "tok_a" "tok_b")

routed : resolve_session server.roster 150 "main" ≡ some "tok_a"
unfolding resolve_session get state_at
routed = refl

revoke_cuts_off_example :
    let s' = (handle_request ctx meets (Request.revoke "tok_a") server).0 in
    (get s'.registry.entries "tok_a" ≡ none)
    × (get s'.registry.entries "tok_b" ≡ get server.registry.entries "tok_b")
    × (handle_request ctx meets (Request.say "main" "hi") s'
        ≡ (s', Response.say (SayReply.err (unknown_session "main")), []))
revoke_cuts_off_example =
    revoke_cuts_off ctx meets meets server "tok_a" "tok_b" "main" "hi" 150 a_not_b routed

say_round_trip_example :
    let (s', response, effects) = handle_request ctx meets (Request.say "main" "hi") server in
    (response ≡ Response.say (SayReply.ok (concat (pieces (partial ∷ last ∷ []))) none))
    × (effects ≡ sends 1 (new_prompt_envelope "t" "p1" "main" "hi" none) ∷ [])
    × (s'.talks ≡ record_prompt ctx.talk_json succeeds [] "t" "p1" "main" "hi")
    × (s'.roster ≡ server.roster)
unfolding get
say_round_trip_example =
    say_round_trip ctx meets server "main" "hi" "tok_a" client client (partial ∷ []) last [] routed
      refl refl refl refl (refl, tt) refl

alone-IsQuiet : IsQuiet alone
alone-IsQuiet = record {
  at_register = λ g. refl;
  at_send = λ g. refl;
  at_wait = λ g. refl;
  at_check = λ g. refl;
}

confirmed_by_support_example :
    let request = Request.query (some "laptop") "support" ("opencode" ∷ []) in
    let (s', response, effects) = handle_request ctx meets request server in
    (s'.registry.confirmed_harnesses ≡ server.registry.confirmed_harnesses)
    ⊎ IsConfirming ctx meets alone-IsQuiet request server s' response
confirmed_by_support_example =
    confirmed_by_support ctx meets alone-IsQuiet
      (Request.query (some "laptop") "support" ("opencode" ∷ [])) server

-- A server that crashed, the next one, and one that is refused.
abbrev starting : List Event
starting = starts 1 works ∷ crashes 1 ∷ starts 2 works ∷ starts 3 works ∷ []

one_server_example :
    let s = run_events (record { file = none; listening = λ p. false }) starting in
    ((p q : ℕ) → s.listening p ≡ true → s.listening q ≡ true → p ≡ q)
    × ((p me : ℕ) (calls : holler_server.Wire.Control.Socket.Calls)
        → s.listening p ≡ true
        → bind_control_socket me calls s ≡ (already_running, s))
    × ((me : ℕ)
        → ((p : ℕ) → s.listening p ≡ false)
        → let (result, after) = bind_control_socket me works s in
          (result ≡ holler_server.Wire.Control.Socket.ok) × (after.listening me ≡ true))
one_server_example = one_server starting

abbrev crashed : Place
crashed = record { file = some 1; listening = λ p. false }

both_start_example :
    (control_socket_is_live crashed ≡ false)
    × (let t = taken 3 (taken 2 crashed) in
        (t.listening 2 ≡ true)
        × (t.listening 3 ≡ true)
        × (t.file ≡ some 3)
        × ((shut_down 2 t).file ≡ none)
        × ((shut_down 2 t).listening 3 ≡ true))
both_start_example = both_start crashed 1 2 3 (λ e. absurd (ground (arith, e))) refl refl

-- The word `status` is the only request; the writes succeed.
abbrev only_status : String → Option Request
only_status text = if text == "status" then some Request.status else none

abbrev typed : String → Line Contents
typed text = record { text = text; others = λ s. s; meets = meets; written = true }

abbrev lines : List (Line Contents)
lines = typed "status" ∷ typed " " ∷ typed "what" ∷ typed "status" ∷ []

answered_in_order_example :
    map answers (handle_control_conn ctx only_status lines server).responses
    ≡ map asks (requests only_status lines)
answered_in_order_example =
    answered_in_order ctx only_status lines server (refl, (refl, (refl, (refl, tt))))

skips_blank : requests only_status lines ≡ Request.status ∷ Request.status ∷ []
unfolding is_blank trim
skips_blank = refl
