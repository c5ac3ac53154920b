-- ===== src/Roster/Steps.antt =====
-- The calls that change the roster of src/wire/roster.rs, in the order in which the mutex lets them
-- through, and what each does to the row of one name.
use mathlib.Core.Option
use holler_server.Prelude.{
  ℕ, ◌-◌, ◌≡◌, refl, ◌∙◌, Bool, true, false, String, List, [], ◌∷◌, Option, some, arith, ltb,
  if◌then◌else◌, ◌==◌, string_eq, eq_iff,
}
use holler_server.Prelude.Dict.{get, kept, get-insert, get-alter, get-map_values}
use holler_server.Prelude.Dict.Unique.{
  Unique, get-retain, Unique-insert, Unique-alter, Unique-map_values, Unique-retain,
}
use holler_server.Roster.{
  Roster, RosterEntry, RosterConfig, new, conflicts, advertise_with_mode, touch_client, set_blocked,
  mark_gone, prune,
}

pub data Call : Type 0 where
  advertises :
      (name harness token_id client_id : String) (mode harness_session_id : Option String) → Call
  touches leaves : (token_id : String) → Call
  blocks : (name : String) → Bool → Call
  prunes : Call

unfoldable pub step : Roster → ℕ × Call → Roster
step r (now, advertises name harness token_id client_id mode hsid) =
    (advertise_with_mode r now name harness token_id client_id mode hsid).0
step r (now, touches token_id) = touch_client r now token_id
step r (now, leaves token_id) = mark_gone r token_id
step r (now, blocks name blocked) = set_blocked r name blocked
step r (now, prunes) = prune r now

unfoldable pub run : Roster → List (ℕ × Call) → Roster
run r [] = r
run r (c ∷ cs) = run (step r c) cs

-- The row that an advertisement writes.
abbrev pub fresh_row : ℕ → String → String → String → Option String → Option String → RosterEntry
fresh_row now harness token_id client_id mode hsid = record {
  harness = harness;
  token_id = token_id;
  client_id = client_id;
  last_seen = now;
  gone_now = false;
  mode = mode;
  harness_session_id = hsid;
  blocked = false;
}

abbrev pub touched : ℕ → String → RosterEntry → RosterEntry
touched now t e = if e.token_id == t then record e { last_seen = now } else e

abbrev pub left : String → RosterEntry → RosterEntry
left t e = if e.token_id == t then record e { gone_now = true } else e

abbrev pub marked : Bool → RosterEntry → RosterEntry
marked b e = record e { blocked = b }

-- The row of a name after a call, from its row before.
abbrev pub next_row : RosterConfig → ℕ × Call → String → Option RosterEntry → Option RosterEntry
next_row config (now, advertises n h t c m s) name old =
    if n == name
    then (if conflicts config now t old then old else some (fresh_row now h t c m s))
    else old
next_row config (now, touches t) name old = Option.map (touched now t) old
next_row config (now, leaves t) name old = Option.map (left t) old
next_row config (now, blocks n b) name old = if n == name then Option.map (marked b) old else old
next_row config (now, prunes) name old = kept (λ e. ltb (now - e.last_seen) config.prune_after) old

pub step_config : (r : Roster) (c : ℕ × Call) → (step r c).config ≡ r.config
unfolding step advertise_with_mode touch_client mark_gone set_blocked prune
step_config r (now, advertises n h t c m s) = ground arith
step_config r (now, touches t) = refl
step_config r (now, leaves t) = refl
step_config r (now, blocks n b) = refl
step_config r (now, prunes) = refl

pub step_row :
    (r : Roster) (c : ℕ × Call) (name : String)
    → Unique r.entries
    → get (step r c).entries name ≡ next_row r.config c name (get r.entries name)
unfolding step advertise_with_mode touch_client mark_gone set_blocked prune
step_row r (now, advertises n h t c m s) name u =
    ground (arith, get-insert r.entries n (fresh_row now h t c m s) name, eq_iff n name)
step_row r (now, touches t) name u = get-map_values (touched now t) r.entries name
step_row r (now, leaves t) name u = get-map_values (left t) r.entries name
step_row r (now, blocks n b) name u = get-alter r.entries n (marked b) name
step_row r (now, prunes) name u = get-retain _ r.entries name u

-- A name keeps at most one row.
pub step-Unique : (r : Roster) (c : ℕ × Call) → Unique r.entries → Unique (step r c).entries
unfolding step advertise_with_mode touch_client mark_gone set_blocked prune
step-Unique r (now, advertises n h t c m s) u =
    ground (arith, Unique-insert r.entries n (fresh_row now h t c m s) u)
step-Unique r (now, touches t) u = Unique-map_values _ r.entries u
step-Unique r (now, leaves t) u = Unique-map_values _ r.entries u
step-Unique r (now, blocks n b) u = Unique-alter r.entries n _ u
step-Unique r (now, prunes) u = Unique-retain _ r.entries u

pub run_config : (r : Roster) (cs : List (ℕ × Call)) → (run r cs).config ≡ r.config
unfolding run
run_config r [] = refl
run_config r (c ∷ cs) = run_config (step r c) cs ∙ step_config r c

run-Unique : (r : Roster) (cs : List (ℕ × Call)) → Unique r.entries → Unique (run r cs).entries
unfolding run
run-Unique r [] u = u
run-Unique r (c ∷ cs) u = run-Unique (step r c) cs (step-Unique r c u)

new-Unique : (config : RosterConfig) → Unique (new config).entries
unfolding new
new-Unique config = tt
