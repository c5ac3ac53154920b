-- ===== src/Wire/Control/Confirmed.antt =====
-- When a harness counts as confirmed (ADR 0001), in src/wire/control.rs.
use holler_server.Prelude.{
  ◌≡◌, refl, true, false, String, List, [], ◌∷◌, Option, none, some, arith, string_eq, inl, inr,
  ◌⊎◌, Option-cases, ==_cases,
}
use holler_server.Proto.Json.{as_bool, field_of}
use holler_server.Proto.{QueryOkBody, ErrorBody}
use holler_server.Roster.{resolve_session}
use holler_server.Wire.Registry.{
  Registry, remove_client, hostname_of, resolve_target, record_harness_confirmed,
}
use holler_server.Wire.Registry.Waiting.{
  World, started, prompt, query, ping, interrupt, answer, QueryOutcome,
}
use holler_server.Wire.Registry.Resolve.{
  forget_pending_query, forget_pending_prompt, forget_pending, forget_pending_interrupt,
  forget_pending_answer,
}
use holler_server.Wire.Connection.{Server, Context}
use holler_server.Wire.Control.{
  Request, Response, QueryReply, Meets, confirm, handle_request, say_to, query_target, interrupt_to,
  answer_to,
}

-- A change of the registry that confirms nothing.
abbrev Keeps : (Registry → Registry) → Type 0
Keeps f = (g : Registry) → (f g).confirmed_harnesses ≡ g.confirmed_harnesses

-- Other tasks that confirm nothing meanwhile.
pub record IsQuiet (w : World) : Type 0 where
  pub at_register : Keeps w.at_register
  pub at_send : Keeps w.at_send
  pub at_wait : Keeps w.at_wait
  pub at_check : Keeps w.at_check

abbrev pub refused : Option ErrorBody → QueryOutcome
refused (some body) = QueryOutcome.err body
refused none = QueryOutcome.disconnected

-- An answer, or none.
pub outcome_cases :
    (o : QueryOutcome)
    → ((body : QueryOkBody) × (o ≡ QueryOutcome.ok body))
      ⊎ ((e : Option ErrorBody) × (o ≡ refused e))
outcome_cases (QueryOutcome.ok body) = inl (body, refl)
outcome_cases (QueryOutcome.err body) = inr (some body, refl)
outcome_cases QueryOutcome.disconnected = inr (none, refl)

module _ {Contents : Type 0} (ctx : Context Contents) (m : Meets Contents)
    (quiet : IsQuiet m.world) where
  ping-Keeps :
      (g : Registry) (token_id host : String)
      → (ping m.world g token_id m.id host m.ts m.now m.waiter m.pong).0.confirmed_harnesses
        ≡ g.confirmed_harnesses
  unfolding ping started forget_pending
  ping-Keeps g token_id host =
      grind (arith, quiet.at_register, quiet.at_send, quiet.at_wait, quiet.at_check)

  query-Keeps :
      (g : Registry) (token_id cmd : String) (args : List String)
      → (query m.world g token_id cmd args m.id m.ts m.waiter m.answered).0.confirmed_harnesses
        ≡ g.confirmed_harnesses
  unfolding query started forget_pending_query
  query-Keeps g token_id cmd args =
      grind (arith, quiet.at_register, quiet.at_send, quiet.at_wait, quiet.at_check)

  prompt-Keeps :
      (g : Registry) (token_id session text : String)
      → (prompt m.world g token_id m.id session text none m.ts m.waiter
          m.events).0.confirmed_harnesses
        ≡ g.confirmed_harnesses
  unfolding prompt started forget_pending_prompt
  prompt-Keeps g token_id session text =
      grind (arith, quiet.at_register, quiet.at_send, quiet.at_wait, quiet.at_check)

  interrupt-Keeps :
      (g : Registry) (token_id session : String)
      → (interrupt m.world g token_id m.id session m.ts m.waiter
          m.interrupted).0.confirmed_harnesses
        ≡ g.confirmed_harnesses
  unfolding interrupt started forget_pending_interrupt
  interrupt-Keeps g token_id session =
      grind (arith, quiet.at_register, quiet.at_send, quiet.at_wait, quiet.at_check)

  answer-Keeps :
      (g : Registry) (token_id session choice : String)
      → (answer m.world g token_id m.id session choice m.ts m.waiter m.chosen).0.confirmed_harnesses
        ≡ g.confirmed_harnesses
  unfolding answer started forget_pending_answer
  answer-Keeps g token_id session choice =
      grind (arith, quiet.at_register, quiet.at_send, quiet.at_wait, quiet.at_check)

  -- The request that confirmed: a `support` that a live client answered with ok.
  pub record IsConfirming (request : Request) (s : Server Contents) (after : Server Contents)
      (response : Response) : Type 0 where
    pub target : String
    pub feature : String
    pub args : List String
    pub token_id : String
    pub host : String
    pub body : QueryOkBody
    pub is_support : request ≡ Request.query (some target) "support" (feature ∷ args)
    pub live : resolve_target s.registry target ≡ some token_id
    pub hosted : hostname_of s.registry token_id ≡ some host
    pub answered : response ≡ Response.query (QueryReply.ok body)
    pub is_ok : as_bool (field_of "ok" body.rest) ≡ some true
    pub recorded :
        after.registry.confirmed_harnesses
        ≡ (record_harness_confirmed s.registry feature host).confirmed_harnesses

  confirm_cases :
      (query_cmd : String) (args : List String) (host : Option String) (body : QueryOkBody)
      (g : Registry)
      → (confirm query_cmd args host body g ≡ g)
        ⊎ ((feature : String) × (rest : List String) × (h : String) × (query_cmd ≡ "support")
            × (args ≡ feature ∷ rest)
            × (host ≡ some h)
            × (as_bool (field_of "ok" body.rest) ≡ some true)
            × (confirm query_cmd args host body g ≡ record_harness_confirmed g feature h))
  unfolding confirm
  confirm_cases query_cmd [] host body g = inl refl
  confirm_cases query_cmd (feature ∷ args) none body g = inl refl
  confirm_cases query_cmd (feature ∷ args) (some h) body g = elim (==_cases query_cmd "support") [
    | inr (e, d) ↦ inl (ground (arith, e))
    | inl (e, d) ↦ elim (Option-cases (as_bool (field_of "ok" body.rest))) [
      | inl k ↦ inl (ground (arith, e, k))
      | inr (true, k) ↦ inr (feature, args, h, d, refl, refl, k, ground (arith, e, k))
      | inr (false, k) ↦ inl (ground (arith, e, k))
    ]
  ]

  confirmed-same :
      (g g' : Registry) (feature host : String)
      → g'.confirmed_harnesses ≡ g.confirmed_harnesses
      → (record_harness_confirmed g' feature host).confirmed_harnesses
        ≡ (record_harness_confirmed g feature host).confirmed_harnesses
  unfolding record_harness_confirmed
  confirmed-same g g' feature host e = rw e refl

  target-confirms :
      (target cmd : String) (args : List String) (token_id : String) (s : Server Contents)
      → resolve_target s.registry target ≡ some token_id
      → let (s', response, effects) = query_target ctx m cmd args token_id s in
        (s'.registry.confirmed_harnesses ≡ s.registry.confirmed_harnesses)
        ⊎ IsConfirming (Request.query (some target) cmd args) s s' response
  unfolding query_target
  target-confirms target cmd args token_id s live =
      let call = query m.world s.registry token_id cmd args m.id m.ts m.waiter m.answered in
      let keeps = query-Keeps s.registry token_id cmd args in
      elim (outcome_cases call.1) [
        | inr (none, e) ↦ inl (ground (arith, e, keeps))
        | inr (some error, e) ↦ inl (ground (arith, e, keeps))
        | inl (body, e) ↦
            elim (confirm_cases cmd args (hostname_of s.registry token_id) body call.0) [
              | inl h ↦ inl (ground (arith, e, h, keeps))
              | inr (feature, rest, host, is, shape, at, affirmed, h) ↦ inr (record {
                target = target;
                feature = feature;
                args = rest;
                token_id = token_id;
                host = host;
                body = body;
                is_support = rw (is, shape) refl;
                live = live;
                hosted = at;
                answered = ground (arith, e);
                is_ok = affirmed;
                recorded =
                    ground (arith, e, h, confirmed-same s.registry call.0 feature host keeps);
              })
            ]
      ]

  -- Confirmed means that a live client said so: a request of the command line leaves the harnesses
  -- confirmed as they are, unless it is a `support` query for a name that resolves to a live
  -- client, which answered with ok: then it confirms what was asked, at that client's host, and
  -- nothing else. Other tasks are taken to confirm nothing meanwhile.
  pub confirmed_by_support :
      (request : Request) (s : Server Contents)
      → let (s', response, effects) = handle_request ctx m request s in
        (s'.registry.confirmed_harnesses ≡ s.registry.confirmed_harnesses)
        ⊎ IsConfirming request s s' response
  unfolding handle_request say_to interrupt_to answer_to remove_client
  confirmed_by_support Request.status s = inl refl
  confirmed_by_support Request.roster s = inl refl
  confirmed_by_support (Request.ping token_id) s =
      inl (ping-Keeps s.registry token_id ctx.server_hostname)
  confirmed_by_support (Request.query none cmd args) s = inl refl
  confirmed_by_support (Request.query (some target) cmd args) s =
      elim (Option-cases (resolve_target s.registry target)) [
        | inl e ↦ inl (ground (arith, e))
        | inr (t, e) ↦ rw (e, handle_request) (target-confirms target cmd args t s e)
      ]
  confirmed_by_support (Request.say session text) s =
      elim (Option-cases (resolve_session s.roster m.now session)) [
        | inl e ↦ inl (ground (arith, e))
        | inr (t, e) ↦ inl (ground (arith, e, prompt-Keeps s.registry t session text))
      ]
  confirmed_by_support (Request.interrupt session) s =
      elim (Option-cases (resolve_session s.roster m.now session)) [
        | inl e ↦ inl (ground (arith, e))
        | inr (t, e) ↦ inl (ground (arith, e, interrupt-Keeps s.registry t session))
      ]
  confirmed_by_support (Request.answer session choice) s =
      elim (Option-cases (resolve_session s.roster m.now session)) [
        | inl e ↦ inl (ground (arith, e))
        | inr (t, e) ↦ inl (ground (arith, e, answer-Keeps s.registry t session choice))
      ]
  confirmed_by_support (Request.revoke token_id) s = inl refl
