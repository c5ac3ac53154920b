-- ===== src/Wire/Query/Agreement.antt =====
-- The answers of src/wire/query.rs agree with each other.
use holler_server.Prelude.{
  ◌≡◌, refl, Bool, true, false, not, String, List, [], ◌∷◌, Option, none, some, if◌then◌else◌,
  string_eq, arith, All, Bool-cases, inl, inr, ==_cases, subst,
}
use holler_server.Proto.Json.{
  Value, Fields, no_fields, get_field, set_field, get-set, as_bool, field_of,
}
use holler_server.Proto.{QueryOkBody}
use holler_server.Wire.Frames.{server_features, protocol_features, harnesses_known}
use holler_server.Wire.Registry.{HarnessConfirmation}
use holler_server.Wire.Query.{
  ok, contains, confirmed_hosts, or_no_hosts, is_empty, feature_entry, harness_entry,
  insert_entries, capabilities_of, caps_body, status_rest, support_body, Facts,
}

-- The `ok` of an answer.
abbrev pub ok_of : Value → Option Bool
ok_of v = as_bool (field_of "ok" v)

-- The `ok` of an id in a caps document.
abbrev pub capability_ok : QueryOkBody → String → Option Bool
capability_ok caps id = elim (field_of "capabilities" caps.rest) [
  | none ↦ none
  | some capabilities ↦ elim (field_of id capabilities) [ none ↦ none | some entry ↦ ok_of entry ]
]

get-insert_entries :
    (entry : String → Fields) (ids : List String) (before : Fields) (id : String)
    → get_field id (insert_entries entry ids before)
      ≡ (if contains ids id then some (Value.object (entry id)) else get_field id before)
unfolding insert_entries contains
get-insert_entries entry [] before id = refl
get-insert_entries entry (x ∷ ids) before id =
    let now = set_field x (Value.object (entry x)) before in
    elim (==_cases x id) [
      | inl (e, same) ↦ ground (
        arith,
        e,
        same,
        get-insert_entries entry ids now id,
        get-set x (Value.object (entry x)) before id,
      )
      | inr (e, _) ↦ ground (
        arith,
        e,
        get-insert_entries entry ids now id,
        get-set x (Value.object (entry x)) before id,
      )
    ]

-- A fact about each id of a list holds of every id that the list contains.
contains-All :
    (P : String → Type 0) (ids : List String) (id : String)
    → All P ids
    → contains ids id ≡ true
    → P id
unfolding contains
contains-All P [] id a h = absurd (ground (arith, h))
contains-All P (x ∷ ids) id a h = elim (==_cases x id) [
  | inl (e, same) ↦ subst P same a.0
  | inr (e, _) ↦ contains-All P ids id a.1 (ground (arith, e, h))
]

protocol-no-harness :
    (id : String) → contains protocol_features id ≡ true → contains harnesses_known id ≡ false
unfolding contains
protocol-no-harness id =
    contains-All (λ id. contains harnesses_known id ≡ false) protocol_features id
      (refl, (refl, (refl, (refl, (refl, (refl, (refl, (refl, tt))))))))

server-protocol :
    (id : String) → contains server_features id ≡ true → contains protocol_features id ≡ true
unfolding contains
server-protocol id =
    contains-All (λ id. contains protocol_features id ≡ true) server_features id
      (refl, (refl, (refl, (refl, (refl, (refl, (refl, tt)))))))

feature-ok :
    (id : String) → ok_of (Value.object (feature_entry id)) ≡ some (contains server_features id)
unfolding feature_entry set_field
feature-ok id = elim (Bool-cases (contains server_features id)) [ inl e ↦ rw e | inr e ↦ rw e ]

harness-ok :
    (confirmed : List HarnessConfirmation) (id : String)
    → ok_of (Value.object (harness_entry confirmed id))
      ≡ some (not (is_empty (or_no_hosts (confirmed_hosts confirmed id))))
unfolding harness_entry set_field
harness-ok confirmed id =
    elim (Bool-cases (not (is_empty (or_no_hosts (confirmed_hosts confirmed id))))) [
      | inl e ↦ rw e
      | inr e ↦ rw e
    ]

get-capabilities_of :
    (confirmed : List HarnessConfirmation) (id : String)
    → get_field id (capabilities_of confirmed) ≡ (
        if contains harnesses_known id
        then some (Value.object (harness_entry confirmed id))
        else if contains protocol_features id
        then some (Value.object (feature_entry id))
        else none)
unfolding capabilities_of
get-capabilities_of confirmed id =
    let known = insert_entries feature_entry protocol_features no_fields in
    ground (
      arith,
      get-insert_entries (harness_entry confirmed) harnesses_known known id,
      get-insert_entries feature_entry protocol_features no_fields id,
    )

capabilities-caps_body :
    (f : Facts) (id : String)
    → capability_ok (caps_body f) id
      ≡ elim (get_field id (capabilities_of f.confirmed)) [ none ↦ none | some entry ↦ ok_of entry ]
unfolding caps_body status_rest set_field
capabilities-caps_body f id = refl

capability-feature :
    (f : Facts) (id : String)
    → contains protocol_features id ≡ true
    → capability_ok (caps_body f) id ≡ some (contains server_features id)
capability-feature f id p =
    let k = protocol-no-harness id p in
    let found : get_field id (capabilities_of f.confirmed)
        ≡ some (Value.object (feature_entry id)) =
      ground (arith, get-capabilities_of f.confirmed id, p, k) in
    rw (capabilities-caps_body f id, found, feature-ok id)

capability-harness :
    (f : Facts) (id : String)
    → contains harnesses_known id ≡ true
    → capability_ok (caps_body f) id
      ≡ some (not (is_empty (or_no_hosts (confirmed_hosts f.confirmed id))))
capability-harness f id k =
    let found : get_field id (capabilities_of f.confirmed)
        ≡ some (Value.object (harness_entry f.confirmed id)) =
      ground (arith, get-capabilities_of f.confirmed id, k) in
    rw (capabilities-caps_body f id, found, harness-ok f.confirmed id)

support-server :
    (id : String) (args : List String) (confirmed : List HarnessConfirmation) (body : QueryOkBody)
    → contains server_features id ≡ true
    → support_body (id ∷ args) confirmed ≡ ok body
    → ok_of body.rest ≡ some true
unfolding support_body
support-server id args confirmed body e h = ground (arith, e, h)

support-protocol :
    (id : String) (args : List String) (confirmed : List HarnessConfirmation) (body : QueryOkBody)
    → contains server_features id ≡ false
    → contains protocol_features id ≡ true
    → support_body (id ∷ args) confirmed ≡ ok body
    → ok_of body.rest ≡ some false
unfolding support_body
support-protocol id args confirmed body e p h = ground (arith, e, p, h)

support-harness :
    (id : String) (args : List String) (confirmed : List HarnessConfirmation) (body : QueryOkBody)
    → contains server_features id ≡ false
    → contains protocol_features id ≡ false
    → support_body (id ∷ args) confirmed ≡ ok body
    → (contains harnesses_known id ≡ true)
      × (ok_of body.rest ≡ some (not (is_empty (or_no_hosts (confirmed_hosts confirmed id)))))
unfolding support_body set_field
support-harness id args confirmed body e p h = ground (arith, e, p, h)

-- What `support` answers an id is what `caps` says of it: when `support` answers without an error, the
-- capability of that id in the caps document of the same facts has the same `ok`.
pub caps_agrees_with_support :
    (f : Facts) (id : String) (args : List String) (body : QueryOkBody)
    → support_body (id ∷ args) f.confirmed ≡ ok body
    → capability_ok (caps_body f) id ≡ ok_of body.rest
caps_agrees_with_support f id args body h = elim (Bool-cases (contains server_features id)) [
  | inl e ↦ rw (
    capability-feature f id (server-protocol id e),
    support-server id args f.confirmed body e h,
    e,
  )
  | inr e ↦ elim (Bool-cases (contains protocol_features id)) [
    | inl p ↦ rw (capability-feature f id p, support-protocol id args f.confirmed body e p h, e)
    | inr p ↦
        let answer = support-harness id args f.confirmed body e p h in
        rw (capability-harness f id answer.0, answer.1)
  ]
]
