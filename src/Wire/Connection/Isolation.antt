-- ===== src/Wire/Connection/Isolation.antt =====
-- How far a frame of src/wire/connection.rs reaches: what belongs to other clients.
use holler_server.Prelude.{
  ℕ, ◌-◌, ◌≡◌, ◌≢◌, refl, sym, ap, ◌⊎◌, ==→≡, ◌∙◌, Bool, true, false, String, List, [], ◌∷◌, Option,
  none, some, arith, inl, inr, All, ltb, Bool-cases, Option-cases, ◌==◌, string_eq, eq_iff,
}
use holler_server.Prelude.Dict.{get, get-alter, get-insert}
use holler_server.Prelude.Dict.Unique.{Unique}
use holler_server.Proto.{Body, Envelope, ErrorBody, ReplyBody}
use holler_server.Proto.Codec.{Decoded}
use holler_server.Wire.TalkLog.{
  TalkEntry, Files, Write, succeeds, fails, find_entry, load, save, safe_filename, record_reply,
  add_reply, reply_record,
}
use holler_server.Proto.Decode.{decode}
use holler_server.Roster.{Roster, RosterEntry, RosterConfig, is_gone, state_at, conflicts}
use holler_server.Roster.Steps.{
  Call, advertises, touches, leaves, blocks, prunes, step, run, next_row, step_row, step-Unique,
  step_config,
}
use holler_server.Wire.Registry.{Registry, Entry, Effect, set_hostname, at_entry}
use holler_server.Wire.Registry.Resolve.{
  resolve_pong, resolve_query_ok, resolve_query_err, resolve_prompt_err, resolve_answer_err,
  resolve_reply, resolve_interrupt_ack, resolve_answer_ack, forget_pending, forget_pending_query,
  forget_pending_interrupt, forget_pending_answer, wake, waiter_in,
}
use holler_server.Wire.Connection.{Server, Context}
use holler_server.Wire.Connection.Dispatch.{
  Moment, handle_body, handle_frame, resolve_ack, resolve_error,
}
use holler_server.Wire.Connection.Gate.{decoded_cases}
use holler_server.Wire.Connection.Calls.{frame_calls, frame-run, frame_calls-All}

-- A call that reaches a row of `owner` only to mark it as blocked: it is another client's, and made
-- while the row is not gone.
abbrev Tame : RosterConfig → RosterEntry → ℕ × Call → Type 0
Tame config e (now, advertises n h t c m s) =
    (t ≢ e.token_id) × (is_gone (state_at e now config) ≡ false)
Tame config e (now, touches t) = t ≢ e.token_id
Tame config e (now, leaves t) = t ≢ e.token_id
Tame config e (now, blocks n b) = Unit
Tame config e (now, prunes) = ltb (now - e.last_seen) config.prune_after ≡ true

-- The row is there, and but for the mark it is this one.
abbrev pub Remains : RosterEntry → Option RosterEntry → Type 0
Remains e row = (b : Bool) × (row ≡ some (record e { blocked = b }))

next_row-Remains :
    (config : RosterConfig) (e : RosterEntry) (c : ℕ × Call) (name : String)
    (row : Option RosterEntry)
    → Tame config e c
    → Remains e row
    → Remains e (next_row config c name row)
unfolding conflicts state_at
next_row-Remains config e (now, advertises n h t c m s) name row d (b, r) =
    (b, ground (arith, r, eq_iff e.token_id t))
next_row-Remains config e (now, touches t) name row d (b, r) =
    (b, ground (arith, r, eq_iff e.token_id t))
next_row-Remains config e (now, leaves t) name row d (b, r) =
    (b, ground (arith, r, eq_iff e.token_id t))
next_row-Remains config e (now, blocks n x) name row d (b, r) = elim (Bool-cases (n == name)) [
  | inl h ↦ (x, ground (arith, r, h))
  | inr h ↦ (b, ground (arith, r, h))
]
next_row-Remains config e (now, prunes) name row d (b, r) = (b, ground (arith, r))

run-Remains :
    (config : RosterConfig) (e : RosterEntry) (name : String) (cs : List (ℕ × Call)) (r : Roster)
    → r.config ≡ config
    → Unique r.entries
    → All (Tame config e) cs
    → Remains e (get r.entries name)
    → Remains e (get (run r cs).entries name)
unfolding run
run-Remains config e name [] r h u t x = x
run-Remains config e name (c ∷ cs) r h u t x =
    run-Remains config e name cs (step r c) (step_config r c ∙ h) (step-Unique r c u) t.1
      (rw (step_row r c name u, h) (next_row-Remains config e c name (get r.entries name) t.0 x))

-- A registry in which at most the entry of one token has changed.
pub record Apart (token_id : String) (g g' : Registry) : Type 0 where
  pub others : (j : String) → token_id ≢ j → get g'.entries j ≡ get g.entries j
  pub confirmed : g'.confirmed_harnesses ≡ g.confirmed_harnesses

abbrev Apart_refl : (token_id : String) (g : Registry) → Apart token_id g g
Apart_refl token_id g = record { others = λ j d. refl; confirmed = refl }

Apart_trans :
    (token_id : String) (g g' g'' : Registry)
    → Apart token_id g g'
    → Apart token_id g' g''
    → Apart token_id g g''
Apart_trans token_id g g' g'' a b = record {
  others = λ j d. b.others j d ∙ a.others j d;
  confirmed = b.confirmed ∙ a.confirmed;
}

at_entry-Apart :
    (token_id : String) (g : Registry) (f : Entry → Entry)
    → Apart token_id g (at_entry g token_id f)
at_entry-Apart token_id g f = record {
  others = λ j d. ground (arith, get-alter g.entries token_id f j, eq_iff token_id j);
  confirmed = refl;
}

wake-Apart :
    (token_id : String) (g : Registry) (w : Option ℕ) (f : Entry → Entry) (effect : ℕ → Effect)
    → Apart token_id g (wake g w (λ g. at_entry g token_id f) effect).0
wake-Apart token_id g none f effect = Apart_refl token_id g
wake-Apart token_id g (some w) f effect = at_entry-Apart token_id g f

error-Apart :
    (g : Registry) (token_id id : String) (b : ErrorBody)
    → Apart token_id g (resolve_error g token_id id b).0
unfolding resolve_query_err resolve_prompt_err resolve_answer_err forget_pending_query
    forget_pending_answer
error-Apart g token_id id b =
    let g1 = (resolve_query_err g token_id id b).0 in
    Apart_trans token_id g g1 _ (wake-Apart token_id g _ _ _) (wake-Apart token_id g1 _ _ _)

ack-Apart :
    (g : Registry) (token_id : String) (of_id : Option String)
    → Apart token_id g (resolve_ack g token_id of_id).0
unfolding resolve_interrupt_ack resolve_answer_ack forget_pending_interrupt forget_pending_answer
ack-Apart g token_id none = Apart_refl token_id g
ack-Apart g token_id (some of_id) =
    let g1 = (resolve_interrupt_ack g token_id of_id).0 in
    Apart_trans token_id g g1 _ (wake-Apart token_id g _ _ _) (wake-Apart token_id g1 _ _ _)

pong-Apart :
    (g : Registry) (token_id id : String) (now : ℕ)
    → Apart token_id g (resolve_pong g token_id id now).0
unfolding resolve_pong forget_pending
pong-Apart g token_id id now =
    elim (Option-cases (waiter_in g token_id (λ (e : Entry). e.pending) id)) [
      | inl h ↦ rw (h, resolve_pong) (Apart_refl token_id g)
      | inr (w, h) ↦ rw (h, resolve_pong) (at_entry-Apart token_id g _)
    ]

module _ {Contents : Type 0} (ctx : Context Contents) (token_id client_id : String) where
  -- The frame is a reply to an exchange that this log has, by its id.
  abbrev pub RepliesTo : String → Server Contents → String → Type 0
  RepliesTo raw s file =
      (env : Envelope) × (b : ReplyBody) × (e : TalkEntry) × (decode ctx.serde raw ≡ Decoded.ok env)
      × (env.body ≡ Body.reply b)
      × (file ≡ safe_filename b.session)
      × (find_entry env.id (load ctx.talk_json s.talks b.session) ≡ some e)

  other_file :
      (written : Write Contents) (files : Files Contents) (ts id session file : String)
      (b : ReplyBody) (e : TalkEntry)
      → find_entry id (load ctx.talk_json files session) ≡ some e
      → (safe_filename session == file) ≡ false
      → get (record_reply ctx.talk_json written files ts id session b) file ≡ get files file
  unfolding record_reply save
  other_file succeeds files ts id session file b e h apart =
      rw (h, record_reply)
        (rw
          (
            get-insert files (safe_filename session)
                (ctx.talk_json.to_string
                  (add_reply id (reply_record ts b) (load ctx.talk_json files session)))
                file,
            apart,
          )
          refl)
  other_file (fails none) files ts id session file b e h apart = rw (h, record_reply) refl
  other_file (fails (some left)) files ts id session file b e h apart =
      rw (h, record_reply) (rw (get-insert files (safe_filename session) left file, apart) refl)

  reply_file :
      (written : Write Contents) (files : Files Contents) (ts id session file : String)
      (b : ReplyBody)
      → (get (record_reply ctx.talk_json written files ts id session b) file ≡ get files file)
        ⊎ ((e : TalkEntry) × (file ≡ safe_filename session)
            × (find_entry id (load ctx.talk_json files session) ≡ some e))
  unfolding record_reply save
  reply_file written files ts id session file b =
      elim (Option-cases (find_entry id (load ctx.talk_json files session))) [
        | inl h ↦ inl (rw (h, record_reply) refl)
        | inr (e, h) ↦ elim (Bool-cases (safe_filename session == file)) [
          | inl same ↦ inr (e, sym (==→≡ (safe_filename session) file same), h)
          | inr apart ↦ inl (other_file written files ts id session file b e h apart)
        ]
      ]

  body_file :
      (m : Moment Contents) (raw : String) (env : Envelope) (b : Body) (s : Server Contents)
      (file : String)
      → decode ctx.serde raw ≡ Decoded.ok env
      → env.body ≡ b
      → (get (handle_body ctx token_id client_id m env b s).0.talks file ≡ get s.talks file)
        ⊎ RepliesTo raw s file
  unfolding handle_body
  body_file m raw env (Body.reply b) s file d is =
      elim (reply_file m.written s.talks m.ts env.id b.session file b) [
        | inl h ↦ inl h
        | inr (e, same, found) ↦ inr (env, b, e, d, is, same, found)
      ]
  body_file m raw env _ s file d is = inl refl

  frame_file :
      (m : Moment Contents) (raw : String) (s : Server Contents) (file : String)
      → (get (handle_frame ctx token_id client_id m raw s).server.talks file ≡ get s.talks file)
        ⊎ RepliesTo raw s file
  unfolding handle_frame
  frame_file m raw s file = elim (decoded_cases (decode ctx.serde raw)) [
    | inl (e, h) ↦ inl (rw (h, handle_frame) refl)
    | inr (env, h) ↦
        let is : (handle_frame ctx token_id client_id m raw s).server
            ≡ (handle_body ctx token_id client_id m env env.body s).0 =
          rw (h, handle_frame) refl in
        elim (body_file m raw env env.body s file h refl) [
          | inl same ↦ inl (ap (λ (x : Server Contents). get x.talks file) is ∙ same)
          | inr replies ↦ inr replies
        ]
  ]

  -- What a frame leaves as it is, the roster and the talk log aside.
  pub record Confined (s s' : Server Contents) : Type 0 where
    pub disk : s'.disk ≡ s.disk
    pub lockout : s'.lockout ≡ s.lockout
    pub registry : Apart token_id s.registry s'.registry

  body-Confined :
      (m : Moment Contents) (env : Envelope) (b : Body) (s : Server Contents)
      → Confined s (handle_body ctx token_id client_id m env b s).0
  unfolding handle_body set_hostname resolve_query_ok forget_pending_query resolve_reply
  body-Confined m env (Body.hello b) s = record {
    disk = refl;
    lockout = refl;
    registry = at_entry-Apart token_id s.registry _;
  }
  body-Confined m env (Body.query_ok b) s = record {
    disk = refl;
    lockout = refl;
    registry = wake-Apart token_id s.registry _ _ _;
  }
  body-Confined m env (Body.pong b) s = record {
    disk = refl;
    lockout = refl;
    registry = pong-Apart s.registry token_id env.id _;
  }
  body-Confined m env (Body.error b) s = record {
    disk = refl;
    lockout = refl;
    registry = error-Apart s.registry token_id env.id b;
  }
  body-Confined m env (Body.ack b) s = record {
    disk = refl;
    lockout = refl;
    registry = ack-Apart s.registry token_id b.of;
  }
  body-Confined m env _ s = record {
    disk = refl;
    lockout = refl;
    registry = Apart_refl token_id s.registry;
  }

  frame-Confined :
      (m : Moment Contents) (raw : String) (s : Server Contents)
      → Confined s (handle_frame ctx token_id client_id m raw s).server
  unfolding handle_frame
  frame-Confined m raw s = elim (decoded_cases (decode ctx.serde raw)) [
    | inl (e, h) ↦
        rw (h, handle_frame)
          (record { disk = refl; lockout = refl; registry = Apart_refl token_id s.registry })
    | inr (env, h) ↦ rw (h, handle_frame) (body-Confined m env env.body s)
  ]

  -- How far a frame reaches: whatever it is, it leaves the tokens, the lockout, the harnesses confirmed
  -- and the other connections as they are; a session of another client that is not gone while the
  -- frame is handled keeps its row, but for the mark that it is blocked; and a file of the talk log
  -- is left as it is, unless the frame is a reply that names a session with this file, whose log has
  -- an entry of the frame's id, whichever client the session belongs to.
  pub frame_isolates :
      (m : Moment Contents) (raw : String) (s : Server Contents) (name file : String)
      (e : RosterEntry)
      → Unique s.roster.entries
      → get s.roster.entries name ≡ some e
      → token_id ≢ e.token_id
      → ((k : ℕ) → is_gone (state_at e (m.instant k) s.roster.config) ≡ false)
      → let s' = (handle_frame ctx token_id client_id m raw s).server in
        Confined s s'
        × Remains e (get s'.roster.entries name)
        × ((get s'.talks file ≡ get s.talks file) ⊎ RepliesTo raw s file)
  frame_isolates m raw s name file e u h d live = (
    frame-Confined m raw s,
    rw (frame-run ctx token_id client_id m raw s) (
        run-Remains s.roster.config e name (frame_calls ctx token_id client_id m raw) s.roster refl
          u
          (frame_calls-All ctx token_id client_id (Tame s.roster.config e) m raw
            (λ k n h mode hsid. (d, live k)) d (λ n b. tt))
          (e.blocked, h)),
    frame_file m raw s file,
  )
