-- ===== src/Wire/Registry.antt =====
-- `Registry` of src/wire/registry.rs. A channel and a waiter are handles, numbers that tell them
-- apart; what a call sends into them is the list of effects that it returns. A call that waits is two
-- functions, one up to the wait and one for what ends it. Times are nanoseconds.
pub mod Resolve
pub mod Entries
pub mod Waiting
pub mod Answers
pub mod Prompts
pub mod Supersede
pub mod Targets
pub mod Tests
use Prim.Native.String.{◌++◌ as append}
use holler_server.Prelude.{
  ℕ, ◌-◌, Bool, true, false, String, List, [], ◌∷◌, ◌++◌, map, Option, none, some, if◌then◌else◌,
  ◌||◌, Eq, ◌==◌, string_eq, length,
}
use holler_server.Prelude.Dict.{Dict, get, insert, remove, alter}
use holler_server.Text.Ordered.{sort_by}
use holler_server.Proto.Json.{ℤ}
use holler_server.Proto.{
  Envelope, ErrorBody, QueryOkBody, ReplyBody, error_with_message, code_session_superseded,
}

-- What reaches a waiter.
pub data PendingQueryReply : Type 0 where
  ok : QueryOkBody → PendingQueryReply
  err : ErrorBody → PendingQueryReply

pub data PendingAnswerReply : Type 0 where
  acked : PendingAnswerReply
  err : ErrorBody → PendingAnswerReply

pub data PromptEvent : Type 0 where
  reply : ReplyBody → PromptEvent
  err : ErrorBody → PromptEvent
  cancelled : PromptEvent

pub data Effect : Type 0 where
  -- A frame for the socket of the connection.
  sends : (channel : ℕ) → Envelope → Effect
  wakes_ping : (waiter : ℕ) (rtt : ℕ) → Effect
  wakes_query : (waiter : ℕ) → PendingQueryReply → Effect
  wakes_prompt : (waiter : ℕ) → PromptEvent → Effect
  wakes_interrupt : (waiter : ℕ) → Effect
  wakes_answer : (waiter : ℕ) → PendingAnswerReply → Effect

pub record Entry : Type 0 where
  pub hostname : String
  pub client_id : String
  pub out_tx : ℕ
  -- The time at which the ping was sent, and its waiter.
  pub pending : Dict String (ℕ × ℕ)
  pub pending_queries : Dict String ℕ
  -- The session of the prompt, and its waiter.
  pub pending_prompts : Dict String (String × ℕ)
  pub pending_interrupts : Dict String ℕ
  pub pending_answers : Dict String ℕ

pub record Registry : Type 0 where
  pub entries : Dict String Entry
  pub confirmed_harnesses : Dict String (List String)

abbrev pub new : Registry
new = record { entries = []; confirmed_harnesses = [] }

abbrev pub new_entry : String → String → ℕ → Entry
new_entry client_id hostname out_tx = record {
  hostname = hostname;
  client_id = client_id;
  out_tx = out_tx;
  pending = [];
  pending_queries = [];
  pending_prompts = [];
  pending_interrupts = [];
  pending_answers = [];
}

abbrev pub superseded_notice : Envelope
superseded_notice =
    error_with_message code_session_superseded
      "a new connection authenticated for this token; closing" "" "server"

-- The entry that is replaced is dropped, and its channel and waiters with it.
unfoldable pub insert_client : Registry → String → String → String → ℕ → Registry × List Effect
insert_client g token_id client_id hostname out_tx =
    let after = record g {
      entries = insert g.entries token_id (new_entry client_id hostname out_tx);
    } in
    elim (get g.entries token_id) [
      | none ↦ (after, [])
      | some previous ↦ (after, sends previous.out_tx superseded_notice ∷ [])
    ]

-- A change of the entry of a token, where there is one.
abbrev pub at_entry : Registry → String → (Entry → Entry) → Registry
at_entry g token_id f = record g { entries = alter g.entries token_id f }

unfoldable pub set_hostname : Registry → String → String → Registry
set_hostname g token_id hostname =
    at_entry g token_id (λ (e : Entry). record e { hostname = hostname })

unfoldable pub remove_client : Registry → String → Bool × Registry
remove_client g token_id = (
  elim (get g.entries token_id) [ none ↦ false | some e ↦ true ],
  record g { entries = remove g.entries token_id },
)

unfoldable pub len : Registry → ℕ
len g = length g.entries

unfoldable pub snapshot : Registry → List (String × String × String)
snapshot g = map (λ row. (row.0, row.1.hostname, row.1.client_id)) g.entries

unfoldable pub find_target : String → Dict String Entry → Option String
find_target id [] = none
find_target id ((token_id, e) ∷ rest) =
    let later = find_target id rest in
    if e.hostname == id || e.client_id == id then some token_id else later

unfoldable pub resolve_target : Registry → String → Option String
resolve_target g id = elim (get g.entries id) [ some e ↦ some id | none ↦ find_target id g.entries ]

unfoldable pub hostname_of : Registry → String → Option String
hostname_of g token_id = elim (get g.entries token_id) [ none ↦ none | some e ↦ some e.hostname ]

-- A set is a list without repetition.
abbrev pub contains : String → List String → Bool
contains x [] = false
contains x (y ∷ ys) = let later = contains x ys in if x == y then true else later

abbrev add_to_set : String → List String → List String
add_to_set x xs = if contains x xs then xs else x ∷ xs

abbrev pub or_no_hosts : Option (List String) → List String
or_no_hosts none = []
or_no_hosts (some hosts) = hosts

unfoldable pub record_harness_confirmed : Registry → String → String → Registry
record_harness_confirmed g harness hostname = record g {
  confirmed_harnesses =
      insert g.confirmed_harnesses harness
        (add_to_set hostname (or_no_hosts (get g.confirmed_harnesses harness)));
}

pub record HarnessConfirmation : Type 0 where
  pub id : String
  pub clients : List String

abbrev pub confirmation : String × List String → HarnessConfirmation
confirmation (id, hosts) = record { id = id; clients = sort_by (λ (s : String). s) hosts }

unfoldable pub confirmed_harnesses_snapshot : Registry → List HarnessConfirmation
confirmed_harnesses_snapshot g =
    sort_by (λ (row : HarnessConfirmation). row.id) (map confirmation g.confirmed_harnesses)
