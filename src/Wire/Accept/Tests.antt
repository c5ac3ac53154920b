-- ===== src/Wire/Accept/Tests.antt =====
-- The cap of src/wire/mod.rs with two slots, and a bare port.
use holler_server.Prelude.{◌≡◌, ◌≤◌, refl, true, List, [], ◌∷◌, none, if◌then◌else◌, ltb, length}
use holler_server.Text.{codes, parse_unsigned, parse_number, parse_digits}
use holler_server.Wire.Accept.{
  Event, accepts, authenticates, listening, step, run, parse_listen_spec, ListenParsed, localhost,
}
use holler_server.Wire.Accept.Cap.{cap_holds}

abbrev events : List Event
events = accepts 1 ∷ accepts 2 ∷ accepts 3 ∷ authenticates 1 ∷ []

cap_holds_example :
    let a = run (listening 2) events in
    (length a.unauthenticated ≤ 2)
    × (a.accepts_more ≡ true
        → ((step a (accepts 4)).unauthenticated ≡ (
            if ltb (length a.unauthenticated) 2 then 4 ∷ a.unauthenticated else a.unauthenticated)))
cap_holds_example = cap_holds 2 events 4

bare_port :
    parse_listen_spec (λ s. none) (codes "41807")
    ≡ ListenParsed.ok (record { ip = localhost; port = 41807 })
unfolding parse_listen_spec parse_unsigned parse_number parse_digits
bare_port = refl
