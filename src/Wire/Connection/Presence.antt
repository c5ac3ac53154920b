-- ===== src/Wire/Connection/Presence.antt =====
-- What a `presence` frame of src/wire/connection.rs makes of the roster.
use holler_server.Prelude.{
  ℕ, suc, ◌-◌, ◌<◌, ◌≡◌, ◌≢◌, refl, ◌∙◌, false, String, List, [], ◌∷◌, Option, some, string_eq,
  arith, ==_cases, inl, inr, ◌⊎◌, eq_iff,
}
use holler_server.Prelude.Dict.{get, get-insert}
use holler_server.Proto.Json.{Value}
use holler_server.Proto.{Body, PresenceBody, Envelope}
use holler_server.Proto.Codec.{Decoded, value}
use holler_server.Proto.Decode.{decode}
use holler_server.Roster.{
  Roster, RosterEntry, RosterConfig, resolve_session, conflicts, advertise_with_mode,
}
use holler_server.Roster.Steps.{fresh_row}
use holler_server.Roster.Ownership.{Held, held, Held-route, resolve_session-route}
use holler_server.Wire.Connection.{Server, Context, PresenceSession}
use holler_server.Wire.Connection.Dispatch.{Moment, handle_frame, handle_body, advertise_rows}
use holler_server.Wire.Connection.Calls.{serde_cases}

module _ {Contents : Type 0} (ctx : Context Contents) (token_id client_id : String)
    (instant : ℕ → ℕ) where
  -- The client may have the name at each reading of the clock.
  abbrev IsFree : RosterConfig → Option RosterEntry → Type 0
  IsFree config row = (k : ℕ) → conflicts config (instant k) token_id row ≡ false

  -- The client has the name since a reading of the clock.
  abbrev IsMine : Option RosterEntry → Type 0
  IsMine row = (k : ℕ) × Held token_id (instant k) row

  advertised : ℕ → PresenceSession → Roster → Roster
  advertised k v r =
      (advertise_with_mode r (instant k) v.name v.harness token_id client_id v.mode
        v.harness_session_id).0

  advertised-config :
      (k : ℕ) (v : PresenceSession) (r : Roster) → (advertised k v r).config ≡ r.config
  unfolding advertised advertise_with_mode
  advertised-config k v r = ground arith

  rows-config :
      (k : ℕ) (rows : List Value) (r : Roster)
      → (advertise_rows ctx token_id client_id instant k rows r).config ≡ r.config
  unfolding advertise_rows advertised
  rows-config k [] r = refl
  rows-config k (row ∷ rows) r = elim (serde_cases (ctx.to_session row)) [
    | inl (e, h) ↦ rw (h, advertise_rows) (rows-config k rows r)
    | inr (v, h) ↦
        rw (h, advertise_rows)
          (rows-config (suc k) rows (advertised k v r) ∙ advertised-config k v r)
  ]

  IsMine-IsFree :
      (config : RosterConfig) (row : Option RosterEntry) → IsMine row → IsFree config row
  unfolding conflicts
  IsMine-IsFree config row (k, held e h o l g) j = ground (arith, h, o, eq_iff e.token_id token_id)

  -- A row of the name takes it; any other row leaves it.
  advertised-takes :
      (k : ℕ) (v : PresenceSession) (r : Roster) (name : String)
      → IsFree r.config (get r.entries name)
      → ((v.name ≡ name) × IsMine (get (advertised k v r).entries name))
        ⊎ ((v.name ≢ name) × (get (advertised k v r).entries name ≡ get r.entries name))
  unfolding advertised advertise_with_mode
  advertised-takes k v r name free =
      let row = fresh_row (instant k) v.harness token_id client_id v.mode v.harness_session_id in
      elim (==_cases v.name name) [
        | inl (e, same) ↦
            let f = free k in
            inl (
              same,
              (
                k,
                held row (ground (arith, f, e, same, get-insert r.entries v.name row name)) refl
                    refl refl,
              ),
            )
        | inr (e, differs) ↦ inr (differs, ground (arith, e, get-insert r.entries v.name row name))
      ]

  advertised-IsMine :
      (k : ℕ) (v : PresenceSession) (r : Roster) (name : String)
      → IsMine (get r.entries name)
      → IsMine (get (advertised k v r).entries name)
  advertised-IsMine k v r name mine =
      elim (advertised-takes k v r name (IsMine-IsFree r.config _ mine)) [
        | inl (same, now) ↦ now
        | inr (differs, e) ↦ rw e mine
      ]

  rows-IsMine :
      (k : ℕ) (rows : List Value) (r : Roster) (name : String)
      → IsMine (get r.entries name)
      → IsMine (get (advertise_rows ctx token_id client_id instant k rows r).entries name)
  unfolding advertise_rows advertised
  rows-IsMine k [] r name mine = mine
  rows-IsMine k (row ∷ rows) r name mine = elim (serde_cases (ctx.to_session row)) [
    | inl (e, h) ↦ rw (h, advertise_rows) (rows-IsMine k rows r name mine)
    | inr (v, h) ↦
        rw (h, advertise_rows)
          (rows-IsMine (suc k) rows (advertised k v r) name (advertised-IsMine k v r name mine))
  ]

  -- The rows have one of this name.
  pub data Lists (name : String) : List Value → Type 0 where
    here :
        {row : Value} {rows : List Value} (v : PresenceSession)
        → ctx.to_session row ≡ value v
        → v.name ≡ name
        → Lists name (row ∷ rows)
    there : {row : Value} {rows : List Value} → Lists name rows → Lists name (row ∷ rows)

  rows-take :
      (k : ℕ) (rows : List Value) (r : Roster) (name : String)
      → Lists name rows
      → IsFree r.config (get r.entries name)
      → IsMine (get (advertise_rows ctx token_id client_id instant k rows r).entries name)
  unfolding advertise_rows advertised
  rows-take k [] r name x free = elim x [ ]
  rows-take k (row ∷ rows) r name (here v h same) free = elim (advertised-takes k v r name free) [
    | inl (e, mine) ↦ rw (h, advertise_rows) (rows-IsMine (suc k) rows (advertised k v r) name mine)
    | inr (differs, e) ↦ absurd (differs same)
  ]
  rows-take k (row ∷ rows) r name (there later) free = elim (serde_cases (ctx.to_session row)) [
    | inl (e, h) ↦ rw (h, advertise_rows) (rows-take k rows r name later free)
    | inr (v, h) ↦
        let same = advertised-config k v r in
        rw (h, advertise_rows)
          (rows-take (suc k) rows (advertised k v r) name later (
            rw same (elim (advertised-takes k v r name free) [
              | inl (e, mine) ↦ IsMine-IsFree r.config _ mine
              | inr (differs, e) ↦ rw e free
            ])))
  ]

-- A client that announces a session can be reached by its name: after a `presence` frame of which a
-- row that can be read has the name, and if the name was free for the client at each reading of the
-- clock, a prompt for it finds the client's token, as long as less than `gone_after` has passed
-- since the frame was handled.
pub presence_routes :
    {Contents : Type 0} (ctx : Context Contents) (token_id client_id : String) (m : Moment Contents)
    (raw : String) (env : Envelope) (b : PresenceBody) (s : Server Contents) (name : String) (x : ℕ)
    → decode ctx.serde raw ≡ Decoded.ok env
    → env.body ≡ Body.presence b
    → Lists ctx token_id client_id m.instant name b.sessions
    → IsFree ctx token_id client_id m.instant s.roster.config (get s.roster.entries name)
    → ((k : ℕ) → x - m.instant k < s.roster.config.gone_after)
    → resolve_session (handle_frame ctx token_id client_id m raw s).server.roster x name
      ≡ some token_id
unfolding handle_frame handle_body
presence_routes ctx token_id client_id m raw env b s name x d e lists free near =
    let after = advertise_rows ctx token_id client_id m.instant 0 b.sessions s.roster in
    let (k, mine) =
      rows-take ctx token_id client_id m.instant 0 b.sessions s.roster name lists free in
    let same : after.config ≡ s.roster.config =
      rows-config ctx token_id client_id m.instant 0 b.sessions s.roster in
    rw (d, e, handle_frame, handle_body)
      (resolve_session-route after x name
        ∙ Held-route after.config token_id (m.instant k) x _ (rw same (near k)) mine)
