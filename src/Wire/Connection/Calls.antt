-- ===== src/Wire/Connection/Calls.antt =====
-- What a frame of src/wire/connection.rs does to the roster, as calls of src/wire/roster.rs.
use holler_server.Prelude.{
  ℕ, suc, ◌≡◌, refl, Bool, String, List, [], ◌∷◌, ◌++◌, Option, inl, inr, ◌⊎◌, All,
}
use holler_server.Proto.Json.{Value}
use holler_server.Proto.{Body, Envelope}
use holler_server.Proto.Codec.{Decoded, Serde, value, failed}
use holler_server.Proto.Decode.{decode}
use holler_server.Roster.{Roster, advertise_with_mode}
use holler_server.Roster.Steps.{Call, advertises, touches, blocks, step, run}
use holler_server.Wire.Connection.{Server, Context}
use holler_server.Wire.Connection.Dispatch.{Moment, advertise_rows, handle_body, handle_frame}
use holler_server.Wire.Connection.Gate.{decoded_cases}

pub run-append : (r : Roster) (cs ds : List (ℕ × Call)) → run r (cs ++ ds) ≡ run (run r cs) ds
unfolding run
run-append r [] ds = refl
run-append r (c ∷ cs) ds = run-append (step r c) cs ds

pub serde_cases :
    {A : Type 0} (x : Serde A) → ((e : String) × (x ≡ failed e)) ⊎ ((a : A) × (x ≡ value a))
serde_cases (failed e) = inl (e, refl)
serde_cases (value a) = inr (a, refl)

module _ {Contents : Type 0} (ctx : Context Contents) (token_id client_id : String) where
  abbrev row_calls : (ℕ → ℕ) → ℕ → List Value → List (ℕ × Call)
  row_calls instant k [] = []
  row_calls instant k (row ∷ rows) = elim (ctx.to_session row) [
    | failed e ↦ row_calls instant k rows
    | value session ↦
        (
          instant k,
          advertises session.name session.harness token_id client_id session.mode
              session.harness_session_id,
        )
        ∷ row_calls instant (suc k) rows
  ]

  abbrev body_calls : Moment Contents → Body → List (ℕ × Call)
  body_calls m (Body.ping b) = (m.instant 0, touches token_id) ∷ []
  body_calls m (Body.presence b) = row_calls m.instant 0 b.sessions
  body_calls m (Body.session_blocked b) = (m.instant 0, blocks b.session b.blocked) ∷ []
  body_calls m _ = []

  -- The calls that a frame makes.
  abbrev pub frame_calls : Moment Contents → String → List (ℕ × Call)
  frame_calls m raw = elim (decode ctx.serde raw) [
    | Decoded.err e ↦ []
    | Decoded.ok env ↦ body_calls m env.body
  ]

  rows-run :
      (instant : ℕ → ℕ) (k : ℕ) (rows : List Value) (r : Roster)
      → advertise_rows ctx token_id client_id instant k rows r ≡ run r (row_calls instant k rows)
  unfolding advertise_rows run step
  rows-run instant k [] r = refl
  rows-run instant k (row ∷ rows) r = elim (serde_cases (ctx.to_session row)) [
    | inl (e, h) ↦ rw (h, advertise_rows, row_calls) (rows-run instant k rows r)
    | inr (v, h) ↦
        rw (h, advertise_rows, row_calls, run)
          (rows-run instant (suc k) rows
            (advertise_with_mode r (instant k) v.name v.harness token_id client_id v.mode
              v.harness_session_id).0)
  ]

  body-run :
      (m : Moment Contents) (env : Envelope) (b : Body) (s : Server Contents)
      → (handle_body ctx token_id client_id m env b s).0.roster ≡ run s.roster (body_calls m b)
  unfolding handle_body run step
  body-run m env (Body.presence b) s = rows-run m.instant 0 b.sessions s.roster
  body-run m env _ s = refl

  -- A frame changes the roster by its calls.
  pub frame-run :
      (m : Moment Contents) (raw : String) (s : Server Contents)
      → (handle_frame ctx token_id client_id m raw s).server.roster
        ≡ run s.roster (frame_calls m raw)
  unfolding handle_frame run
  frame-run m raw s = elim (decoded_cases (decode ctx.serde raw)) [
    | inl (e, h) ↦ rw (h, handle_frame, frame_calls, run) refl
    | inr (env, h) ↦ rw (h, handle_frame, frame_calls) (body-run m env env.body s)
  ]

  -- A property of the calls that a frame may make.
  row_calls-All :
      (P : ℕ × Call → Type 0) (instant : ℕ → ℕ)
      → ((k : ℕ) (n h : String) (mode hsid : Option String)
          → P (instant k, advertises n h token_id client_id mode hsid))
      → (k : ℕ) (rows : List Value) → All P (row_calls instant k rows)
  row_calls-All P instant advertised k [] = tt
  row_calls-All P instant advertised k (row ∷ rows) = elim (serde_cases (ctx.to_session row)) [
    | inl (e, h) ↦ rw (h, row_calls) (row_calls-All P instant advertised k rows)
    | inr (v, h) ↦
        rw (h, row_calls)
          (
            advertised k v.name v.harness v.mode v.harness_session_id,
            row_calls-All P instant advertised (suc k) rows,
          )
  ]

  pub frame_calls-All :
      (P : ℕ × Call → Type 0) (m : Moment Contents) (raw : String)
      → ((k : ℕ) (n h : String) (mode hsid : Option String)
          → P (m.instant k, advertises n h token_id client_id mode hsid))
      → P (m.instant 0, touches token_id)
      → ((n : String) (b : Bool) → P (m.instant 0, blocks n b))
      → All P (frame_calls m raw)
  frame_calls-All P m raw advertised touched blocked = elim (decoded_cases (decode ctx.serde raw)) [
    | inl (e, h) ↦ rw (h, frame_calls) tt
    | inr (env, h) ↦ rw (h, frame_calls) (go env.body)
  ]
    where
      go : (b : Body) → All P (body_calls m b)
      go (Body.ping b) = (touched, tt)
      go (Body.presence b) = row_calls-All P m.instant advertised 0 b.sessions
      go (Body.session_blocked b) = (blocked b.session b.blocked, tt)
      go _ = tt
