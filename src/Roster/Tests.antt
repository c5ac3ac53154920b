-- ===== src/Roster/Tests.antt =====
-- Runs of src/wire/roster.rs, and the theorems about it at concrete inputs.
use holler_server.Prelude.{
  ℕ, ◌≡◌, ◌≢◌, refl, String, List, [], ◌∷◌, none, some, arith, eq_iff, string_eq,
}
use holler_server.Prelude.Dict.{get}
use holler_server.Prelude.Dict.Unique.{Unique}
use holler_server.Roster.{
  Roster, RosterEntry, RosterConfig, RosterRow, new, default_config, advertise_with_mode,
  resolve_session, live_count, snapshot, row_of, prune, from_env, env_duration_ms, state_at,
  connected, gone, ok, err, holder, second,
}
use holler_server.Roster.Steps.{Call, advertises, touches, leaves, prunes, run, fresh_row}
use holler_server.Roster.Ownership.{Held, held, Schedule, end, other, beat, heartbeat_keeps_session}

abbrev config : RosterConfig
config = record { reconnect_after = 45; gone_after = 180; prune_after = 360; sweep_interval = 30 }

abbrev row : RosterEntry
row = fresh_row 100 "opencode" "tok_a" "cli_a" none none

abbrev roster : Roster
roster = record { entries = ("alpha", row) ∷ []; config = config }

roster-Unique : Unique roster.entries
unfolding get
roster-Unique = (refl, tt)

a_not_b : ◌≢◌ {A = String} "tok_b" "tok_a"
a_not_b = ground (arith, eq_iff "tok_b" "tok_a")

taken :
    (advertise_with_mode roster 150 "alpha" "claude" "tok_b" "cli_b" none none).1
    ≡ err (record { session = "alpha"; held_by_client_id = "cli_a" })
unfolding advertise_with_mode get holler_server.Roster.conflicts state_at
taken = refl

abbrev busy : List (ℕ × Call)
busy =
    (150, advertises "alpha" "claude" "tok_b" "cli_b" none none)
    ∷ (170, touches "tok_a")
    ∷ (200, leaves "tok_b")
    ∷ (340, prunes)
    ∷ []

roster-Held : Held "tok_a" 100 (get roster.entries "alpha")
unfolding get
roster-Held = held row refl refl refl refl

busy-Schedule : Schedule "tok_a" 180 100 busy 170
busy-Schedule =
    other (omega arith) a_not_b (beat (other (omega arith) a_not_b (other (omega arith) tt end)))

heartbeat_keeps_session_example : resolve_session (run roster busy) 349 "alpha" ≡ some "tok_a"
heartbeat_keeps_session_example =
    heartbeat_keeps_session roster "tok_a" "alpha" 100 170 349 busy (omega arith) roster-Unique
      roster-Held busy-Schedule (omega arith)
