-- ===== src/Wire/Query.antt =====
-- src/wire/query.rs: the answers to `status`, `caps`, `support` and `protocol`. A JSON object is its
-- fields. `quoted` is Rust's `{:?}` of a text.
pub mod Agreement
pub mod Tests
use Prim.Native.String.{◌++◌ as append}
use holler_server.Prelude.{
  ℕ, ◌^◌, Bool, true, false, not, ◌&&◌, String, List, [], ◌∷◌, Option, none, some, leb,
  if◌then◌else◌, ◌==◌, string_eq,
}
use holler_server.Text.{codes, parse_unsigned}
use holler_server.Proto.Json.{Value, Values, Fields, no_fields, field, unsigned, set_field, values}
use holler_server.Proto.{ErrorBody, QueryOkBody}
use holler_server.Wire.Frames.{
  protocol_version, server_features, protocol_features, harnesses_known,
}
use holler_server.Wire.Registry.{HarnessConfirmation}

-- `Result<QueryOkBody, ErrorBody>`
pub data Answered : Type 0 where
  ok : QueryOkBody → Answered
  err : ErrorBody → Answered

abbrev pub code_unknown_cmd : String
code_unknown_cmd = "unknown_cmd"

abbrev code_unknown_feature : String
code_unknown_feature = "unknown_feature"

abbrev pub error_body : String → Option String → String → ErrorBody
error_body code cmd message = record { code = code; cmd = cmd; message = some message }

unfoldable pub contains : List String → String → Bool
contains [] x = false
contains (y ∷ ys) x = if y == x then true else contains ys x

unfoldable pub confirmed_hosts : List HarnessConfirmation → String → Option (List String)
confirmed_hosts [] id = none
confirmed_hosts (c ∷ cs) id = if c.id == id then some c.clients else confirmed_hosts cs id

abbrev pub or_no_hosts : Option (List String) → List String
or_no_hosts none = []
or_no_hosts (some hosts) = hosts

abbrev pub is_empty : List String → Bool
is_empty [] = true
is_empty (x ∷ xs) = false

abbrev pub number : ℕ → Value
number n = Value.number (unsigned n)

abbrev pub texts : List String → Value
texts xs = Value.array (values (λ s. Value.string s) xs)

abbrev confirmation_value : HarnessConfirmation → Value
confirmation_value c =
    Value.object (field "id" (Value.string c.id) (field "clients" (texts c.clients) no_fields))

-- What a process answers about itself: its hostname, its addresses, how many clients and sessions are
-- live, and the harnesses confirmed.
pub record Facts : Type 0 where
  pub hostname : String
  pub listening : List String
  pub clients : ℕ
  pub sessions : ℕ
  pub confirmed : List HarnessConfirmation

unfoldable pub status_rest : Facts → Fields
status_rest f = field "role" (Value.string "server") (
    field "protocol" (number protocol_version) (
      field "protocol_min" (number protocol_version) (
        field "protocol_max" (number protocol_version) (
          field "hostname" (Value.string f.hostname) (
            field "listening" (texts f.listening) (
              field "features" (texts server_features) (
                field "harnesses_known" (texts harnesses_known) (
                  field "harnesses_confirmed" (Value.array (values confirmation_value f.confirmed))
                    (field "clients" (number f.clients)
                      (field "sessions" (number f.sessions) no_fields))))))))))

unfoldable pub status_body : Facts → QueryOkBody
status_body f = record { cmd = "status"; rest = Value.object (status_rest f) }

abbrev pub not_implemented : Value
not_implemented = Value.string "not implemented by this server process"

abbrev not_confirmed : Value
not_confirmed = Value.string "not confirmed by any live client"

unfoldable pub feature_entry : String → Fields
feature_entry feature =
    let known = contains server_features feature in
    let entry = field "ok" (Value.bool known) (field "kind" (Value.string "feature") no_fields) in
    if known then entry else set_field "reason" not_implemented entry

unfoldable pub harness_entry : List HarnessConfirmation → String → Fields
harness_entry confirmed harness =
    let hosts = or_no_hosts (confirmed_hosts confirmed harness) in
    let known = not (is_empty hosts) in
    let entry = field "ok" (Value.bool known) (field "kind" (Value.string "harness") no_fields) in
    if known
    then set_field "clients" (texts hosts) entry
    else set_field "reason" not_confirmed entry

-- The loop that inserts an entry for each id.
unfoldable pub insert_entries : (String → Fields) → List String → Fields → Fields
insert_entries entry [] capabilities = capabilities
insert_entries entry (id ∷ ids) capabilities =
    insert_entries entry ids (set_field id (Value.object (entry id)) capabilities)

unfoldable pub capabilities_of : List HarnessConfirmation → Fields
capabilities_of confirmed =
    insert_entries (harness_entry confirmed) harnesses_known
      (insert_entries feature_entry protocol_features no_fields)

unfoldable pub caps_body : Facts → QueryOkBody
caps_body f = record {
  cmd = "caps";
  rest =
      Value.object
        (set_field "capabilities" (Value.object (capabilities_of f.confirmed)) (status_rest f));
}

-- The fields that each answer to `support` starts with.
abbrev pub support_rest : String → Bool → String → Fields → Fields
support_rest feature known kind more = field "args" (texts (feature ∷ [])) (
    field "ok" (Value.bool known)
      (field "feature" (Value.string feature) (field "kind" (Value.string kind) more)))

abbrev support_ok : Fields → Answered
support_ok fields = ok (record { cmd = "support"; rest = Value.object fields })

unfoldable pub support_body : List String → List HarnessConfirmation → Answered
support_body [] confirmed =
    err
      (error_body code_unknown_feature (some "support") "support requires a feature or harness id")
support_body (feature ∷ args) confirmed =
    let hosts = or_no_hosts (confirmed_hosts confirmed feature) in
    let known = not (is_empty hosts) in
    let rest = support_rest feature known "harness" no_fields in
    if contains server_features feature
    then support_ok (
        support_rest feature true "feature"
          (field "how" (Value.string "implemented by this server process") no_fields))
    else if contains protocol_features feature
    then support_ok
        (support_rest feature false "feature" (field "reason" not_implemented no_fields))
    else if contains harnesses_known feature
    then support_ok (
        if known
        then set_field "clients" (texts hosts)
            (set_field "how" (Value.string "confirmed by a live client") rest)
        else set_field "reason" not_confirmed rest)
    else err (
        error_body code_unknown_feature (some "support")
          (append "unknown feature or harness id: " feature))

abbrev version_fields : Fields
version_fields =
    field "session" (number protocol_version)
      (field "min" (number protocol_version) (field "max" (number protocol_version) no_fields))

unfoldable protocol_body : (String → String) → List String → Answered
protocol_body quoted [] = ok (record { cmd = "protocol"; rest = Value.object version_fields })
protocol_body quoted (raw ∷ args) =
    let refused = err (
      error_body code_unknown_feature (some "protocol")
        (append "protocol version must be a positive integer, got " (quoted raw))) in
    elim (parse_unsigned (2 ^ 32) (codes raw)) [
      | none ↦ refused
      | some asked ↦
          if leb 1 asked
          then ok (record {
            cmd = "protocol";
            rest = Value.object (
                field "args" (texts (raw ∷ [])) (
                  field "ok" (Value.bool (leb protocol_version asked && leb asked protocol_version))
                    (field "asked" (number asked) version_fields)));
          })
          else refused
    ]

unfoldable pub dispatch : (String → String) → String → List String → Facts → Answered
unfolding status_body caps_body support_body protocol_body
dispatch quoted cmd args f =
    if cmd == "status"
    then ok (status_body f)
    else if cmd == "caps"
    then ok (caps_body f)
    else if cmd == "support"
    then support_body args f.confirmed
    else if cmd == "protocol"
    then protocol_body quoted args
    else err (error_body code_unknown_cmd (some cmd) (append "unknown query cmd: " cmd))
