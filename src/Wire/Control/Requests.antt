-- ===== src/Wire/Control/Requests.antt =====
-- What the requests of src/wire/control.rs do to the running server.
use holler_server.Prelude.{
  ℕ, ◌≡◌, ◌≢◌, true, String, List, [], ◌∷◌, ◌++◌, map, none, some, arith, string_eq, All, inl, inr,
  Option-cases, eq_iff,
}
use holler_server.Prelude.Dict.{get, get-remove, get-map_values}
use holler_server.Proto.{ReplyBody}
use holler_server.Roster.{Roster, resolve_session, mark_gone, state_at}
use holler_server.Roster.Steps.{left}
use holler_server.Wire.Frames.{new_prompt_envelope}
use holler_server.Wire.Registry.{Entry, sends, PromptEvent, remove_client}
use holler_server.Wire.Registry.Waiting.{started, prompt, concat}
use holler_server.Wire.Registry.Prompts.{IsPartial, pieces, prompt_collects_replies}
use holler_server.Wire.TalkLog.{record_prompt}
use holler_server.Wire.Connection.{Server, Context}
use holler_server.Wire.Control.{
  Request, Response, SayReply, Meets, unknown_session, handle_request, say_to,
}

-- A session of a client that is marked as gone is routed nowhere.
marked-unrouted :
    (r : Roster) (token_id name : String) (x y : ℕ)
    → resolve_session r x name ≡ some token_id
    → resolve_session (mark_gone r token_id) y name ≡ none
unfolding resolve_session mark_gone state_at
marked-unrouted r token_id name x y h = elim (Option-cases (get r.entries name)) [
  | inl e ↦ absurd (ground (arith, h, e))
  | inr (row, e) ↦
      ground
        (arith, h, e, get-map_values (left token_id) r.entries name, eq_iff row.token_id token_id)
]

module _ {Contents : Type 0} (ctx : Context Contents) where
  -- A revoked client is cut off: after a revocation its token has no connection, those of the other
  -- tokens stay, and whatever session was routed to it, a prompt for it is answered as one for an
  -- unknown session, at any time until it is announced again: nothing is sent, nothing is logged.
  pub revoke_cuts_off :
      (m later : Meets Contents) (s : Server Contents) (token_id other session text : String)
      (x : ℕ)
      → token_id ≢ other
      → resolve_session s.roster x session ≡ some token_id
      → let s' = (handle_request ctx m (Request.revoke token_id) s).0 in
        (get s'.registry.entries token_id ≡ none)
        × (get s'.registry.entries other ≡ get s.registry.entries other)
        × (handle_request ctx later (Request.say session text) s'
            ≡ (s', Response.say (SayReply.err (unknown_session session)), []))
  unfolding handle_request remove_client
  revoke_cuts_off m later s token_id other session text x differ routed =
      let at = get-remove s.registry.entries token_id in
      let gone = marked-unrouted s.roster token_id session x later.now routed in
      (
        ground (arith, at token_id, eq_iff token_id token_id),
        ground (arith, at other, eq_iff token_id other),
        ground (arith, gone),
      )

  -- A prompt makes the round trip: for a session that is routed to a token with a live connection, it is
  -- logged, and sent to that connection and nowhere else; if partial replies and then a final one
  -- come back, the command gets their texts in order, and the exit of the last. Whatever other
  -- tasks do meanwhile, as long as the connection is there when the prompt is registered.
  pub say_round_trip :
      (m : Meets Contents) (s : Server Contents) (session text token_id : String) (e e1 : Entry)
      (partial : List ReplyBody) (last : ReplyBody) (more : List PromptEvent)
      → resolve_session s.roster m.now session ≡ some token_id
      → get s.registry.entries token_id ≡ some e
      → get (m.world.at_register s.registry).entries token_id ≡ some e1
      → m.world.is_open ≡ true
      → m.events ≡ map PromptEvent.reply partial ++ PromptEvent.reply last ∷ more
      → All IsPartial partial
      → last.done ≡ true
      → let (s', response, effects) = handle_request ctx m (Request.say session text) s in
        (response ≡ Response.say (SayReply.ok (concat (pieces (partial ++ last ∷ []))) last.exit))
        × (effects ≡ sends e.out_tx (new_prompt_envelope m.ts m.id session text none) ∷ [])
        × (s'.talks ≡ record_prompt ctx.talk_json m.written s.talks m.ts m.id session text)
        × (s'.roster ≡ s.roster)
  unfolding handle_request say_to prompt started
  say_round_trip m s session text token_id e e1 partial last more routed live still opened ev p d =
      let out = prompt_collects_replies partial last more p d in
      (
        ground (arith, routed, live, still, opened, ev, out),
        ground (arith, routed, live, still, opened),
        ground (arith, routed, live, still, opened),
        ground (arith, routed, live, still, opened),
      )
