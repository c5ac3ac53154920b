-- ===== src/Wire/Query/Tests.antt =====
-- A server with two clients that host opencode.
use holler_server.Prelude.{◌≡◌, refl, [], ◌∷◌, false, some}
use holler_server.Proto.Json.{Value, Fields}
use holler_server.Proto.{QueryOkBody}
use holler_server.Wire.Query.{
  err, Facts, caps_body, support_body, support_rest, contains, dispatch, error_body,
  not_implemented, code_unknown_cmd,
}
use holler_server.Wire.Query.Agreement.{caps_agrees_with_support, capability_ok, ok_of}

abbrev facts : Facts
facts = record {
  hostname = "hub";
  listening = [];
  clients = 2;
  sessions = 3;
  confirmed = record { id = "opencode"; clients = "laptop" ∷ "desk" ∷ [] } ∷ [];
}

abbrev wait_answer : QueryOkBody
wait_answer = record {
  cmd = "support";
  rest = Value.object (
      support_rest "wait" false "feature" (Fields.field "reason" not_implemented Fields.no_fields));
}

caps_agrees_with_support_example : capability_ok (caps_body facts) "wait" ≡ ok_of wait_answer.rest
unfolding support_body contains
caps_agrees_with_support_example = caps_agrees_with_support facts "wait" [] wait_answer refl

unknown_cmd_test :
    dispatch (λ s. s) "uptime" [] facts
    ≡ err (error_body code_unknown_cmd (some "uptime") "unknown query cmd: uptime")
unfolding dispatch
unknown_cmd_test = refl
