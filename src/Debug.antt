-- ===== src/Debug.antt =====
-- src/debug.rs: levels and formats, the lines of the log, and what is hidden in them. A text is the list
-- of its code points; the time of a line, and JSON, are arguments.
pub mod Redact
pub mod Scrubbed
pub mod Hidden
pub mod Levels
pub mod Tests
use holler_server.Prelude.{
  ℕ, suc, ◌-◌, Bool, true, false, List, [], ◌∷◌, ◌++◌, Option, none, some, if◌then◌else◌, length,
  ltb, zero,
}
use holler_server.Text.{codes}
use holler_server.Debug.Redact.{to_ascii_lowercase, same_text, redact_hlr_tokens}

pub data DebugLevel : Type 0 where
  off quiet noisy : DebugLevel

-- A value, or the text that is none.
pub data Parsed (A : Type 0) : Type 0 where
  ok : A → Parsed A
  err : List ℕ → Parsed A

unfoldable pub parse_level : List ℕ → Parsed DebugLevel
parse_level value =
    let name = to_ascii_lowercase value in
    if same_text name (codes "none")
    then ok DebugLevel.off
    else if same_text name (codes "quiet")
    then ok DebugLevel.quiet
    else if same_text name (codes "noisy")
    then ok DebugLevel.noisy
    else err value

-- The flag, else the variable, else the default.
abbrev resolved :
    {A : Type 0} → (List ℕ → Parsed A) → A → Option (List ℕ) → Option (List ℕ) → Parsed A
resolved parse default (some flag) env = parse flag
resolved parse default none (some value) = parse value
resolved parse default none none = ok default

unfoldable pub resolve_level : Option (List ℕ) → Option (List ℕ) → Parsed DebugLevel
unfolding parse_level
resolve_level flag env = resolved parse_level DebugLevel.off flag env

unfoldable pub level_name : DebugLevel → List ℕ
level_name DebugLevel.off = codes "none"
level_name DebugLevel.quiet = codes "quiet"
level_name DebugLevel.noisy = codes "noisy"

pub data LogFormat : Type 0 where
  text json : LogFormat

unfoldable parse_format : List ℕ → Parsed LogFormat
parse_format value =
    let name = to_ascii_lowercase value in
    if same_text name (codes "text")
    then ok text
    else if same_text name (codes "json")
    then ok json
    else err value

unfoldable pub resolve_format : Option (List ℕ) → Option (List ℕ) → Parsed LogFormat
unfolding parse_format
resolve_format flag env = resolved parse_format text flag env

pub record DebugConfig : Type 0 where
  pub level : DebugLevel
  pub format : LogFormat

abbrev is_on : DebugConfig → Bool
is_on cfg = elim cfg.level [ DebugLevel.off ↦ false | _ ↦ true ]

abbrev pub is_noisy : DebugConfig → Bool
is_noisy cfg = elim cfg.level [ DebugLevel.noisy ↦ true | _ ↦ false ]

pub data Severity : Type 0 where
  debug info warn : Severity

unfoldable severity_name : Severity → List ℕ
severity_name debug = codes "debug"
severity_name info = codes "info"
severity_name warn = codes "warn"

unfoldable severity_column : Severity → List ℕ
severity_column debug = codes "DEBUG"
severity_column info = codes "INFO "
severity_column warn = codes "WARN "

pub data Direction : Type 0 where
  out in_ local : Direction

unfoldable direction_column : Direction → List ℕ
direction_column out = codes "->"
direction_column in_ = codes "<-"
direction_column local = codes "  "

unfoldable direction_name : Direction → Option (List ℕ)
direction_name out = some (codes "out")
direction_name in_ = some (codes "in")
direction_name local = none

abbrev type_column_width : ℕ
type_column_width = 10

abbrev component_column_width : ℕ
component_column_width = 16

abbrev short_id_len : ℕ
short_id_len = 12

abbrev pub first : ℕ → List ℕ → List ℕ
first zero s = []
first (suc n) [] = []
first (suc n) (c ∷ s) = c ∷ first n s

unfoldable pub short : List ℕ → List ℕ
short value = first short_id_len value

pub record Event : Type 0 where
  pub cfg : DebugConfig
  pub severity : Severity
  pub dir : Direction
  pub component : List ℕ
  pub kind : List ℕ
  pub id : Option (List ℕ)
  pub peer : Option (List ℕ)
  pub fields : List (List ℕ × List ℕ)
  pub frame : Option (List ℕ)

abbrev pub new : DebugConfig → Severity → Direction → List ℕ → List ℕ → Event
new cfg severity dir component kind = record {
  cfg = cfg;
  severity = severity;
  dir = dir;
  component = component;
  kind = kind;
  id = none;
  peer = none;
  fields = [];
  frame = none;
}

unfoldable pub will_emit : Event → Bool
will_emit e = elim e.severity [ debug ↦ is_on e.cfg | _ ↦ true ]

-- The steps by which a line is built. A frame that cannot be written as JSON is none.
pub data Detail : Type 0 where
  id peer : List ℕ → Detail
  field : List ℕ → List ℕ → Detail
  frame : List ℕ → Detail
  frame_of : Option (List ℕ) → Detail

unfoldable pub add : Event → Detail → Event
unfolding will_emit redact_hlr_tokens
add e (id value) = record e { id = some value }
add e (peer value) = record e { peer = some value }
add e (field key value) =
    if will_emit e then record e { fields = e.fields ++ (key, value) ∷ [] } else e
add e (frame rendered) = if is_noisy e.cfg then record e { frame = some rendered } else e
add e (frame_of none) = e
add e (frame_of (some rendered)) =
    if is_noisy e.cfg then record e { frame = redact_hlr_tokens rendered } else e

unfoldable pub build : Event → List Detail → Event
unfolding add
build e [] = e
build e (d ∷ ds) = build (add e d) ds

abbrev space : List ℕ
space = codes " "

abbrev pub spaces : ℕ → List ℕ
spaces zero = []
spaces (suc n) = b' ' ∷ spaces n

-- `{:<width$}`
abbrev pub padded : ℕ → List ℕ → List ℕ
padded width s = s ++ spaces (width - length s)

abbrev labelled : List ℕ → Option (List ℕ) → List ℕ
labelled label none = []
labelled label (some value) = label ++ short value

abbrev fields_text : List (List ℕ × List ℕ) → List ℕ
fields_text [] = []
fields_text ((key, value) ∷ rest) = space ++ (key ++ (codes "=" ++ (value ++ fields_text rest)))

abbrev frame_text : Option (List ℕ) → List ℕ
frame_text none = []
frame_text (some f) = space ++ f

unfoldable pub render_text : List ℕ → Event → List ℕ
unfolding severity_column direction_column short
render_text ts e =
    ts
    ++ (space
        ++ (severity_column e.severity
            ++ (space
                ++ (direction_column e.dir
                    ++ (space
                        ++ (padded component_column_width e.component
                            ++ (space
                                ++ (padded type_column_width e.kind
                                    ++ (labelled (codes " id=") e.id
                                        ++ (labelled (codes " peer=") e.peer
                                            ++ (fields_text e.fields
                                                ++ frame_text e.frame)))))))))))

-- The line that serde_json writes, if it can; that it collects the fields in a map, and reads the frame
-- back as a value, is left to it.
pub record JsonLine : Type 0 where
  pub ts : List ℕ
  pub level : List ℕ
  pub verbosity : List ℕ
  pub component : List ℕ
  pub dir : Option (List ℕ)
  pub kind : List ℕ
  pub id : Option (List ℕ)
  pub peer : Option (List ℕ)
  pub fields : List (List ℕ × List ℕ)
  pub frame : Option (List ℕ)

abbrev or_unserializable : List ℕ → Option (List ℕ) → List ℕ
or_unserializable ts (some line) = line
or_unserializable ts none =
    codes "{\"ts\":\""
    ++ (ts ++ codes "\",\"level\":\"debug\",\"error\":\"unserializable log line\"}")

unfoldable pub render_json : (JsonLine → Option (List ℕ)) → List ℕ → Event → List ℕ
unfolding severity_name level_name direction_name
render_json to_string ts e = or_unserializable ts (
    to_string (record {
      ts = ts;
      level = severity_name e.severity;
      verbosity = level_name e.cfg.level;
      component = e.component;
      dir = direction_name e.dir;
      kind = e.kind;
      id = e.id;
      peer = e.peer;
      fields = e.fields;
      frame = e.frame;
    }))

-- What is written to the standard error output.
unfoldable pub emit : (JsonLine → Option (List ℕ)) → List ℕ → Event → Option (List ℕ)
unfolding will_emit render_text render_json
emit to_string ts e =
    let line : List ℕ = elim e.cfg.format [
      | text ↦ render_text ts e
      | json ↦ render_json to_string ts e
    ] in
    if will_emit e then some line else none
