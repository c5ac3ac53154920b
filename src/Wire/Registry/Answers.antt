-- ===== src/Wire/Registry/Answers.antt =====
-- The waiters of src/wire/registry.rs: an answer reaches the call that it answers, once, and a call that
-- ends leaves no waiter behind.
use holler_server.Prelude.{
  ℕ, ◌≡◌, String, List, [], ◌∷◌, Option, none, some, arith, string_eq, inl, inr, Option-cases,
  ==_refl,
}
use holler_server.Prelude.Dict.{remove, insert, get, get-insert, get-remove, get-alter}
use holler_server.Proto.{QueryOkBody, ErrorBody}
use holler_server.Proto.Json.{Value}
use holler_server.Wire.Registry.{
  Registry, Entry, wakes_query, PendingQueryReply, PromptEvent, at_entry,
}
use holler_server.Wire.Registry.Resolve.{
  waiter_in, forget_pending_query, resolve_query_ok, resolve_query_err, forget_pending_prompt,
}
use holler_server.Wire.Registry.Waiting.{World, started, prompt}

prompt-forgotten :
    (g : Registry) (token_id id : String)
    → waiter_in (forget_pending_prompt g token_id id) token_id (λ (e : Entry). e.pending_prompts) id
      ≡ none
unfolding forget_pending_prompt
prompt-forgotten g token_id id =
    let f : Entry → Entry = λ e. record e { pending_prompts = remove e.pending_prompts id } in
    elim (Option-cases (get g.entries token_id)) [
      | inl e ↦ ground (arith, get-alter g.entries token_id f token_id, e)
      | inr (x, e) ↦ ground (
        arith,
        get-alter g.entries token_id f token_id,
        e,
        get-remove x.pending_prompts id id,
        ==_refl id,
        ==_refl token_id,
      )
    ]

-- However a prompt ends, and whatever other tasks do to the registry meanwhile, the registry that it
-- leaves has no waiter under the id of the prompt at its token.
pub prompt_leaves_no_waiter :
    (w : World) (g : Registry) (token_id prompt_id session text : String) (meta : Option Value)
    (ts : String)
    → (waiter : ℕ) (events : List PromptEvent)
    → waiter_in
        (prompt w g token_id prompt_id session text meta ts waiter events).0
        token_id
        (λ (e : Entry). e.pending_prompts)
        prompt_id
      ≡ none
unfolding prompt started
prompt_leaves_no_waiter w g token_id prompt_id session text meta ts waiter events =
    elim (Option-cases (get g.entries token_id)) [
      | inl e ↦ ground (arith, e)
      | inr (x, e) ↦ elim (Option-cases (get (w.at_register g).entries token_id)) [
        | inl e1 ↦ ground (arith, e, e1)
        | inr (x1, e1) ↦
            let add : Entry → Entry = λ e. record e {
              pending_prompts = insert e.pending_prompts prompt_id (session, waiter);
            } in
            let g2 = w.at_send (at_entry (w.at_register g) token_id add) in
            ground (
              arith,
              e,
              e1,
              prompt-forgotten g2 token_id prompt_id,
              prompt-forgotten (w.at_wait g2) token_id prompt_id,
            )
      ]
    ]

-- The registry after a query of a token was registered.
abbrev query_registered : Registry → String → String → ℕ → Registry
query_registered g token_id query_id waiter =
    at_entry g token_id
      (λ (e : Entry). record e { pending_queries = insert e.pending_queries query_id waiter })

query-waits :
    (g : Registry) (token_id query_id : String) (waiter : ℕ) (e : Entry)
    → get g.entries token_id ≡ some e
    → waiter_in
        (query_registered g token_id query_id waiter)
        token_id
        (λ (e : Entry). e.pending_queries)
        query_id
      ≡ some waiter
query-waits g token_id query_id waiter e h =
    let f : Entry → Entry =
      λ e. record e { pending_queries = insert e.pending_queries query_id waiter } in
    ground (
      arith,
      get-alter g.entries token_id f token_id,
      h,
      get-insert e.pending_queries query_id waiter query_id,
      ==_refl query_id,
      ==_refl token_id,
    )

query-forgotten :
    (g : Registry) (token_id id : String)
    → waiter_in (forget_pending_query g token_id id) token_id (λ (e : Entry). e.pending_queries) id
      ≡ none
unfolding forget_pending_query
query-forgotten g token_id id =
    let f : Entry → Entry = λ e. record e { pending_queries = remove e.pending_queries id } in
    elim (Option-cases (get g.entries token_id)) [
      | inl e ↦ ground (arith, get-alter g.entries token_id f token_id, e)
      | inr (x, e) ↦ ground (
        arith,
        get-alter g.entries token_id f token_id,
        e,
        get-remove x.pending_queries id id,
        ==_refl id,
        ==_refl token_id,
      )
    ]

-- Once a query is registered at a live token, the first answer with its id on this token, a `query_ok`,
-- wakes its waiter with the body and nothing else; any further answer with this id, `query_ok` or
-- `error`, wakes nothing and changes nothing.
query_answered_once :
    (g : Registry) (token_id query_id : String) (waiter : ℕ) (e : Entry) (body late : QueryOkBody)
    (error : ErrorBody)
    → get g.entries token_id ≡ some e
    → let g1 = query_registered g token_id query_id waiter in
      let (g2, effects) = resolve_query_ok g1 token_id query_id body in
      (effects ≡ wakes_query waiter (PendingQueryReply.ok body) ∷ [])
      × (resolve_query_ok g2 token_id query_id late ≡ (g2, []))
      × (resolve_query_err g2 token_id query_id error ≡ (g2, []))
unfolding resolve_query_ok resolve_query_err
query_answered_once g token_id query_id waiter e body late error h =
    let q = query-waits g token_id query_id waiter e h in
    let f = query-forgotten (query_registered g token_id query_id waiter) token_id query_id in
    (ground (arith, q), ground (arith, q, f), ground (arith, q, f))
