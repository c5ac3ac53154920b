-- ===== src/Wire/Control/Lines.antt =====
-- The loop of `handle_control_conn` of src/wire/control.rs over the lines of one connection of the command
-- line.
use holler_server.Prelude.{
  ◌≡◌, refl, Bool, true, String, List, [], ◌∷◌, ◌++◌, map, Option, none, some, arith, inl, inr, All,
  Option-cases, if◌then◌else◌,
}
use holler_server.Token.Record.{is_blank}
use holler_server.Wire.Registry.{Effect}
use holler_server.Wire.Connection.{Server, Context}
use holler_server.Wire.Control.{
  Request, Response, Meets, handle_request, query_target, say_to, interrupt_to, answer_to,
}

-- A line: what other tasks do before it is read, what its request meets, and whether the response can be
-- written.
pub record Line (Contents : Type 0) : Type 0 where
  pub text : String
  pub others : Server Contents → Server Contents
  pub meets : Meets Contents
  pub written : Bool

-- The shared objects afterwards, the responses that were written, and what the requests sent.
pub record Answers (Contents : Type 0) : Type 0 where
  pub server : Server Contents
  pub responses : List Response
  pub effects : List Effect

-- A blank line, and one that is no request, are skipped.
abbrev pub request_of : (String → Option Request) → String → Option Request
request_of from_str text = let req = from_str text in if is_blank text then none else req

module _ {Contents : Type 0} (ctx : Context Contents) (from_str : String → Option Request) where
  unfoldable pub handle_control_conn : List (Line Contents) → Server Contents → Answers Contents
  handle_control_conn [] s = record { server = s; responses = []; effects = [] }
  handle_control_conn (line ∷ lines) s =
      let now = line.others s in
      let skipped = handle_control_conn lines now in
      elim (request_of from_str line.text) [
        | none ↦ skipped
        | some req ↦
            let (after, response, effects) = handle_request ctx line.meets req now in
            let rest = handle_control_conn lines after in
            if line.written
            then record {
              server = rest.server;
              responses = response ∷ rest.responses;
              effects = effects ++ rest.effects;
            }
            else record { server = after; responses = []; effects = effects }
      ]

-- Which request it is, and which request a response answers.
pub data Kind : Type 0 where
  status ping roster query say interrupt answer revoke : Kind

abbrev pub asks : Request → Kind
asks Request.status = Kind.status
asks Request.roster = Kind.roster
asks (Request.ping token_id) = Kind.ping
asks (Request.query target query_cmd args) = Kind.query
asks (Request.say session text) = Kind.say
asks (Request.interrupt session) = Kind.interrupt
asks (Request.answer session choice) = Kind.answer
asks (Request.revoke token_id) = Kind.revoke

abbrev pub answers : Response → Kind
answers (Response.status doc) = Kind.status
answers (Response.ping reply) = Kind.ping
answers (Response.roster rows) = Kind.roster
answers (Response.query reply) = Kind.query
answers (Response.say reply) = Kind.say
answers (Response.interrupt reply) = Kind.interrupt
answers (Response.answer reply) = Kind.answer
answers (Response.revoke closed) = Kind.revoke

-- The requests of the lines.
abbrev pub requests :
    {Contents : Type 0} → (String → Option Request) → List (Line Contents) → List Request
requests from_str [] = []
requests from_str (line ∷ lines) =
    let rest = requests from_str lines in
    elim (request_of from_str line.text) [ none ↦ rest | some req ↦ req ∷ rest ]

module _ {Contents : Type 0} (ctx : Context Contents) where
  answers-asks :
      (m : Meets Contents) (req : Request) (s : Server Contents)
      → answers (handle_request ctx m req s).1 ≡ asks req
  unfolding handle_request query_target say_to interrupt_to answer_to
  answers-asks m Request.status s = refl
  answers-asks m Request.roster s = refl
  answers-asks m (Request.ping token_id) s = refl
  answers-asks m (Request.query none query_cmd args) s = refl
  answers-asks m (Request.query (some target) query_cmd args) s = ground arith
  answers-asks m (Request.say session text) s = ground arith
  answers-asks m (Request.interrupt session) s = ground arith
  answers-asks m (Request.answer session choice) s = ground arith
  answers-asks m (Request.revoke token_id) s = refl

  -- Each request that the command line writes is answered once, in the order of the requests, and by a
  -- response to a request of its kind, if the responses can be written; blank lines, and lines
  -- that are no request, get no response.
  pub answered_in_order :
      (from_str : String → Option Request) (lines : List (Line Contents)) (s : Server Contents)
      → All (λ (line : Line Contents). line.written ≡ true) lines
      → map answers (handle_control_conn ctx from_str lines s).responses
        ≡ map asks (requests from_str lines)
  unfolding handle_control_conn
  answered_in_order from_str [] s h = refl
  answered_in_order from_str (line ∷ lines) s (w, h) =
      elim (Option-cases (request_of from_str line.text)) [
        | inl e ↦ ground (arith, e, answered_in_order from_str lines (line.others s) h)
        | inr (req, e) ↦
            let now = line.others s in
            let after = (handle_request ctx line.meets req now).0 in
            ground (
              arith,
              e,
              w,
              answers-asks line.meets req now,
              answered_in_order from_str lines after h,
            )
      ]
