-- ===== src/Wire/Control/Client.antt =====
-- The command line's side of src/wire/control.rs. `Line` is what a line of the socket is; the crate
-- serde_json and what the operating system does are arguments.
use holler_server.Prelude.{
  ℕ, ◌*◌, ◌≡◌, Bool, true, String, List, [], Option, none, some, arith, inl, inr, ◌↔◌, ◌≢◌,
  Bool-cases, Option-cases, ◌≤◌, ◌<◌, ◌&&◌, ltb, if◌then◌else◌,
}
use holler_server.Token.Record.{ConnectionStatus, is_blank}
use holler_server.Token.Store.{or_empty}
use holler_server.Wire.Control.{
  PingReply, QueryReply, SayReply, InterruptReply, AnswerReply, StatusDoc, RosterRowDoc,
}

-- Seconds, in nanoseconds.
abbrev client_timeout : ℕ
client_timeout = 5 * 1_000_000_000

abbrev pub reply_timeout : ℕ
reply_timeout = 600 * 1_000_000_000

pub data ClientQueryOutcome : Type 0 where
  reached : String → ClientQueryOutcome
  not_reachable timed_out : ClientQueryOutcome

-- What a read of one line gives, and when.
pub data Read : Type 0 where
  line : String → Read
  end_of_file failed : Read

-- One round trip, as the operating system lets it go: whether the runtime starts, whether the
-- connection is made before `client_timeout`, whether the request can be written, and when the
-- reader is done with what, if ever.
pub record Trip : Type 0 where
  pub runtime : Bool
  pub connects : Bool
  pub serializes : Bool
  pub writes : Bool
  pub reads : Option (ℕ × Read)

abbrev of_read : Read → ClientQueryOutcome
of_read end_of_file = not_reachable
of_read failed = not_reachable
of_read (line response) = if is_blank response then not_reachable else reached response

-- A server has the request.
abbrev pub is_taken : Trip → Bool
is_taken t = t.runtime && t.connects && t.serializes && t.writes

unfoldable run_client_query_with_timeout : Trip → ℕ → ClientQueryOutcome
run_client_query_with_timeout t read_timeout =
    if is_taken t
    then elim t.reads [
      | none ↦ timed_out
      | some (at, read) ↦ if ltb at read_timeout then of_read read else timed_out
    ]
    else not_reachable

unfoldable run_client_query : Trip → Option String
unfolding run_client_query_with_timeout
run_client_query t = elim (run_client_query_with_timeout t client_timeout) [
  | reached s ↦ some s
  | not_reachable ↦ none
  | timed_out ↦ none
]

pub data ControlOutcome (A : Type 0) : Type 0 where
  reached : A → ControlOutcome A
  not_reachable timed_out : ControlOutcome A

-- The crate serde_json, at the types of the replies.
pub record Replies : Type 0 where
  pub to_status : String → Option StatusDoc
  pub to_roster : String → Option (List RosterRowDoc)
  pub to_query : String → Option QueryReply
  pub to_ping : String → Option PingReply
  pub to_revoke : String → Option Bool
  pub to_say : String → Option SayReply
  pub to_interrupt : String → Option InterruptReply
  pub to_answer : String → Option AnswerReply

abbrev parsed_by : {A : Type 0} → (String → Option A) → Option String → Option A
parsed_by read none = none
parsed_by read (some l) = read l

-- The outcome of a command that waits for a client.
abbrev outcome_of : {A : Type 0} → (String → Option A) → ClientQueryOutcome → ControlOutcome A
outcome_of read (ClientQueryOutcome.reached l) = elim (read l) [
  | some reply ↦ ControlOutcome.reached reply
  | none ↦ ControlOutcome.not_reachable
]
outcome_of read ClientQueryOutcome.not_reachable = ControlOutcome.not_reachable
outcome_of read ClientQueryOutcome.timed_out = ControlOutcome.timed_out

abbrev or_zero : Option ℕ → ℕ
or_zero none = 0
or_zero (some n) = n

module _ (r : Replies) where
  unfoldable query_status : Trip → Option StatusDoc
  unfolding run_client_query
  query_status t = parsed_by r.to_status (run_client_query t)

  unfoldable query_roster : Trip → List RosterRowDoc
  unfolding run_client_query
  query_roster t = elim (parsed_by r.to_roster (run_client_query t)) [
    | none ↦ []
    | some rows ↦ rows
  ]

  unfoldable run_query : Trip → Option QueryReply
  unfolding run_client_query
  run_query t = parsed_by r.to_query (run_client_query t)

  unfoldable run_revoke : Trip → Option Bool
  unfolding run_client_query
  run_revoke t = parsed_by r.to_revoke (run_client_query t)

  unfoldable pub run_say : Trip → ControlOutcome SayReply
  unfolding run_client_query_with_timeout
  run_say t = outcome_of r.to_say (run_client_query_with_timeout t reply_timeout)

  unfoldable run_interrupt : Trip → ControlOutcome InterruptReply
  unfolding run_client_query_with_timeout
  run_interrupt t = outcome_of r.to_interrupt (run_client_query_with_timeout t reply_timeout)

  unfoldable run_answer : Trip → ControlOutcome AnswerReply
  unfolding run_client_query_with_timeout
  run_answer t = outcome_of r.to_answer (run_client_query_with_timeout t reply_timeout)

  -- `LiveProbe::probe`
  unfoldable pub probe : Trip → ConnectionStatus
  unfolding run_client_query
  probe t = elim (parsed_by r.to_ping (run_client_query t)) [
    | none ↦ ConnectionStatus.disconnected
    | some reply ↦
        if reply.connected
        then ConnectionStatus.connected (or_empty reply.hostname) (or_zero reply.rtt_ms)
        else ConnectionStatus.disconnected
  ]

  read-not-timed_out : (read : Read) → outcome_of r.to_say (of_read read) ≢ ControlOutcome.timed_out
  read-not-timed_out end_of_file h = ground (arith, h)
  read-not-timed_out failed h = ground (arith, h)
  read-not-timed_out (line l) h = elim (Bool-cases (is_blank l)) [
    | inl b ↦ ground (arith, h, b)
    | inr b ↦ elim (Option-cases (r.to_say l)) [
      | inl n ↦ ground (arith, h, b, n)
      | inr (reply, n) ↦ ground (arith, h, b, n)
    ]
  ]

  -- A prompt is reported as timed out only if a server took the request and then did not answer within
  -- `reply_timeout`, and as answered only if its answer came in time; in every other case no server
  -- is reported to be reachable.
  pub timed_out_only_if_taken :
      (t : Trip)
      → ((run_say t ≡ ControlOutcome.timed_out) ↔ (
          (is_taken t ≡ true)
          × ((at : ℕ) (read : Read) → t.reads ≡ some (at, read) → reply_timeout ≤ at)))
        × ((reply : SayReply)
            → run_say t ≡ ControlOutcome.reached reply
            → (is_taken t ≡ true)
              × ((at : ℕ) × (read : Read) × (t.reads ≡ some (at, read)) × (at < reply_timeout)))
  unfolding run_say run_client_query_with_timeout
  timed_out_only_if_taken t = elim (Bool-cases (is_taken t)) [
    | inr n ↦ (
      (λ h. absurd (ground (arith, h, n)), λ (h, silent). absurd (ground (arith, h, n))),
      λ reply h. absurd (ground (arith, h, n)),
    )
    | inl y ↦ elim (Option-cases t.reads) [
      | inl e ↦ (
        (λ h. (y, λ at read q. absurd (ground (arith, e, q))), λ h. ground (arith, y, e)),
        λ reply h. absurd (ground (arith, h, y, e)),
      )
      | inr ((at, read), e) ↦ elim (Bool-cases (ltb at reply_timeout)) [
        | inl early ↦ (
          (
            λ h. absurd (read-not-timed_out read (ground (arith, h, y, e, early))),
            λ (h, silent). absurd (ground (arith, silent at read e, early)),
          ),
          λ reply h. (y, (at, read, e, ground (arith, early))),
        )
        | inr late ↦ (
          (λ h. (y, λ at' read' q. ground (arith, e, q, late)), λ h. ground (arith, y, e, late)),
          λ reply h. absurd (ground (arith, h, y, e, late)),
        )
      ]
    ]
  ]
