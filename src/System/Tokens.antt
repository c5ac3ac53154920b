-- ===== src/System/Tokens.antt =====
-- What each step of the running server does to the tokens of the store, to the connections of the
-- registry, and to the clients that are about to be registered.
use holler_server.Prelude.{
  ℕ, ◌≡◌, ◌≢◌, refl, ap, ◌∙◌, Bool, true, false, String, List, Option, none, some, arith, ◌⊎◌, inl,
  inr, Option-cases, Bool-cases, string_eq, nat_beq, if◌then◌else◌,
}
use holler_server.Net.{IpAddr}
use holler_server.Lockout.{is_locked_out}
use holler_server.Token.Record.{StoredState, TokenRecord, IsLawful, VerifiedClient}
use holler_server.Token.Store.{find_record, or_empty}
use holler_server.Token.Records.{Stored}
use holler_server.Token.History.{redeems, verifies, perform}
use holler_server.Token.Steps.{kept, Effect, perform-Effect}
use holler_server.Proto.Json.{as_str}
use holler_server.Proto.{Body, Envelope}
use holler_server.Proto.Decode.{decode}
use holler_server.Wire.Registry.{insert_client}
use holler_server.Wire.Registry.Entries.{BeginsNone, none_refl, remove-BeginsNone}
use holler_server.Wire.Connection.{Server, Context}
use holler_server.Wire.Connection.Admission.{
  Attempt, handle_join, authenticate, first_body, first_frame,
}
use holler_server.Wire.Connection.Cases.{Admitted-cases}
use holler_server.Wire.Connection.Gate.{
  Entered, entered, only_credentials_enter, decoded_cases, first_frame-SameLive,
}
use holler_server.Wire.Connection.Session.{take_turn, teardown, Ended, running, over}
use holler_server.Wire.Control as Control
use holler_server.Wire.Control.{
  Meets, handle_request, query_target, say_to, interrupt_to, answer_to,
}
use holler_server.Wire.Control.Calm.{handle_request-BeginsNone}
use holler_server.System.{
  Phase, before_first_frame, admitted, greeting, serving, System, moved, after_first, after_turn,
  Step, accepts, gives_up, presents, registers, greets, turns, leaves, commands, stores, sweeps,
}
use holler_server.System.Turns.{turn-Tame, teardown-Tame}

module _ {Contents : Type 0} (ctx : Context Contents) where
  -- A request of the command line does not touch the store.
  request-disk :
      (m : Meets Contents) (q : Control.Request) (s : Server Contents)
      → (handle_request ctx m q s).0.disk ≡ s.disk
  unfolding handle_request query_target say_to interrupt_to answer_to
  request-disk m (Control.Request.query (some target) cmd args) s = ground arith
  request-disk m (Control.Request.query none cmd args) s = refl
  request-disk m q s = ground arith

  module _ (l : IsLawful ctx.platform) (ip : IpAddr) (a : Attempt) where
    join-disk :
        (env : Envelope) (secret hostname : String) (s : Server Contents)
        → (handle_join ctx ip a env secret hostname s).0.disk
          ≡ (perform ctx.platform ctx.pepper
              (redeems env.from secret hostname a.id_bytes a.credential_bytes)
              a.wall
              s.disk).1
    unfolding handle_join perform
    join-disk env secret hostname s = ground arith

    authenticate-disk :
        (env : Envelope) (credential : String) (s : Server Contents)
        → (authenticate ctx ip a env credential s).0.disk
          ≡ (perform ctx.platform ctx.pepper (verifies env.from credential) a.wall s.disk).1
    unfolding authenticate perform
    authenticate-disk env credential s = ground arith

    body-Effect :
        (env : Envelope) (b : Body) (rs : List TokenRecord) (s : Server Contents)
        → Stored ctx.platform rs s.disk
        → Effect ctx.platform l rs (first_body ctx ip a env b s).0.disk
    unfolding first_body
    body-Effect env (Body.join b) rs s st =
        rw (join-disk env b.secret b.hostname s)
          (perform-Effect ctx.platform l ctx.pepper _ a.wall rs s.disk st)
    body-Effect env (Body.auth b) rs s st = elim (Option-cases (as_str (some b.credential))) [
      | inl e ↦ rw (e, first_body) (rs, kept, st)
      | inr (credential, e) ↦
          rw (e, first_body, authenticate-disk env credential s)
            (perform-Effect ctx.platform l ctx.pepper _ a.wall rs s.disk st)
    ]
    body-Effect env _ rs s st = (rs, kept, st)

    frame-Effect :
        (raw : String) (rs : List TokenRecord) (s : Server Contents)
        → Stored ctx.platform rs s.disk
        → Effect ctx.platform l rs (first_frame ctx ip a raw s).0.disk
    unfolding first_frame
    frame-Effect raw rs s st = elim (decoded_cases (decode ctx.serde raw)) [
      | inl (e, d) ↦ rw (d, first_frame) (rs, kept, st)
      | inr (env, d) ↦ rw (d, first_frame) (body-Effect env env.body rs s st)
    ]

accepted-admits :
    (locked : Bool) (w : VerifiedClient)
    → ◌≢◌ {A = Option Phase} (if locked then none else some before_first_frame) (some (admitted w))
accepted-admits true w h = ground (arith, h)
accepted-admits false w h = ground (arith, h)

after_turn-admits :
    (v : VerifiedClient) (ended : Ended) (w : VerifiedClient)
    → ◌≢◌ {A = Option Phase} (some (after_turn v ended)) (some (admitted w))
after_turn-admits v running w h = ground (arith, h)
after_turn-admits v (over certain) w h = ground (arith, h)

-- A client that the store has authenticated.
abbrev pub IsBound : List TokenRecord → VerifiedClient → Type 0
IsBound rs v =
    (r : TokenRecord) × (find_record v.token_id rs ≡ some r)
    × (r.state ≡ StoredState.bound)
    × (v.client_id ≡ or_empty r.client_id)

-- What a step does to the connections: it begins none, or registers a client that was admitted.
pub data Registered {Contents : Type 0} (s t : System Contents) : Type 0 where
  none_begun : BeginsNone s.server.registry t.server.registry → Registered s t
  begun :
      (k channel : ℕ) (v : VerifiedClient)
      → s.tasks k ≡ some (admitted v)
      → t.server.registry
        ≡ (insert_client s.server.registry v.token_id v.client_id v.machine channel).0
      → Registered s t

module _ {Contents : Type 0} (ctx : Context Contents) (l : IsLawful ctx.platform) where
  pub record Outcome (rs : List TokenRecord) (s t : System Contents) : Type 0 where
    pub tokens : Effect ctx.platform l rs t.server.disk
    pub connections : Registered s t
    pub admissions :
        (j : ℕ) (v : VerifiedClient)
        → t.tasks j ≡ some (admitted v)
        → (s.tasks j ≡ some (admitted v)) ⊎ IsBound rs v

  -- A step that admits nobody, and leaves the store alone.
  kept-Outcome :
      (rs : List TokenRecord) (s : System Contents) (k : ℕ) (phase : Option Phase)
      (server : Server Contents)
      → Stored ctx.platform rs s.server.disk
      → ((v : VerifiedClient) → phase ≢ some (admitted v))
      → Registered s (moved s k phase server)
      → server.disk ≡ s.server.disk
      → Outcome rs s (moved s k phase server)
  kept-Outcome rs s k phase server st other r d = record {
    tokens = (rs, kept, rw d st);
    connections = r;
    admissions = λ j v h. elim (Bool-cases (nat_beq k j)) [
      | inl e ↦ absurd (ground (arith, h, e, other v))
      | inr e ↦ inl (ground (arith, h, e))
    ];
  }

  found_to :
      (ip : IpAddr) (a : Attempt) (rs : List TokenRecord) (raw : String) (v : VerifiedClient)
      → Entered ctx ip a rs raw v
      → IsBound rs v
  found_to ip a rs raw v (entered env b credential d e t bound) = (
    bound.record_of,
    ap (λ x. find_record x rs) bound.same_token ∙ bound.found,
    bound.bound,
    bound.same_client,
  )

  presents-Outcome :
      (rs : List TokenRecord) (s : System Contents) (k : ℕ) (ip : IpAddr) (a : Attempt)
      (raw : String)
      → Stored ctx.platform rs s.server.disk
      → let (server, result) = first_frame ctx ip a raw s.server in
        Outcome rs s (moved s k (after_first result) server)
  presents-Outcome rs s k ip a raw st =
      let same = first_frame-SameLive ctx ip a raw s.server in
      record {
        tokens = frame-Effect ctx l ip a raw rs s.server st;
        connections = none_begun (rw (same.registry) (none_refl s.server.registry));
        admissions = λ j v h. elim (Bool-cases (nat_beq k j)) [
          | inr e ↦ inl (ground (arith, h, e))
          | inl e ↦ inr (elim (Admitted-cases (first_frame ctx ip a raw s.server).1) [
            | inl (sent, c) ↦ absurd (ground (arith, h, e, c))
            | inr (w, c) ↦
                let same : w ≡ v = ground (arith, h, e, c) in
                found_to ip a rs raw v
                  (only_credentials_enter ctx ip a rs raw s.server v st (rw same at c)).0
          ])
        ];
      }

  -- What every step does, where the store works.
  pub Step-Outcome :
      (rs : List TokenRecord) (s t : System Contents)
      → Stored ctx.platform rs s.server.disk
      → Step ctx s t
      → Outcome rs s t
  Step-Outcome rs s t st (accepts k peer now free e) =
      let (lockout, locked) = is_locked_out s.server.lockout peer now in
      rw e (
        kept-Outcome rs s k (if locked then none else some before_first_frame)
          (record s.server { lockout = lockout }) st (accepted-admits locked)
          (none_begun (none_refl s.server.registry)) refl)
  Step-Outcome rs s t st (gives_up k at e) = rw e (
      kept-Outcome rs s k none s.server st (λ v h. ground (arith, h))
        (none_begun (none_refl s.server.registry)) refl)
  Step-Outcome rs s t st (presents k peer a raw at e) = rw e (presents-Outcome rs s k peer a raw st)
  Step-Outcome rs s t st (registers k channel v at e) = rw e (
      kept-Outcome rs s k (some (greeting v)) _ st (λ w h. ground (arith, h))
        (begun k channel v at refl) refl)
  Step-Outcome rs s t st (greets k v true at e) = rw e (
      kept-Outcome rs s k (some (serving v)) s.server st (λ w h. ground (arith, h))
        (none_begun (none_refl s.server.registry)) refl)
  Step-Outcome rs s t st (greets k v false at e) = rw e (
      kept-Outcome rs s k none _ st (λ w h. ground (arith, h))
        (none_begun (remove-BeginsNone s.server.registry v.token_id)) refl)
  Step-Outcome rs s t st (turns k v h m at e) =
      let tame = turn-Tame ctx v h m s.server in
      rw e (
        kept-Outcome rs s k (some (after_turn v (take_turn ctx v h m s.server).ended))
          (take_turn ctx v h m s.server).server st
          (after_turn-admits v (take_turn ctx v h m s.server).ended) (none_begun tame.registry)
          tame.disk)
  Step-Outcome rs s t st (leaves k v certain at e) =
      let tame = teardown-Tame ctx v certain s.server in
      rw e (
        kept-Outcome rs s k none (teardown ctx v certain s.server) st (λ w h. ground (arith, h))
          (none_begun tame.registry) tame.disk)
  Step-Outcome rs s t st (commands q m calm e) = rw e (record {
    tokens = (rs, kept, rw (request-disk ctx m q s.server) st);
    connections = none_begun (handle_request-BeginsNone ctx m calm q s.server);
    admissions = λ j v h. inl h;
  })
  Step-Outcome rs s t st (stores q now e) = rw e (record {
    tokens = perform-Effect ctx.platform l ctx.pepper q now rs s.server.disk st;
    connections = none_begun (none_refl s.server.registry);
    admissions = λ j v h. inl h;
  })
  Step-Outcome rs s t st (sweeps now e) = rw e (record {
    tokens = (rs, kept, st);
    connections = none_begun (none_refl s.server.registry);
    admissions = λ j v h. inl h;
  })
