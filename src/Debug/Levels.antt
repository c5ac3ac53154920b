-- ===== src/Debug/Levels.antt =====
-- When src/debug.rs writes a line, and what a line may have.
use holler_server.Prelude.{
  ℕ, ◌≡◌, ◌≢◌, refl, sym, ap, subst, ◌∙◌, true, false, List, [], ◌∷◌, Option, none, some, arith,
  All, inl, inr, ◌⊎◌, Bool-cases,
}
use holler_server.Text.{codes}
use holler_server.Debug.Redact.{to_ascii_lowercase, same_text}
use holler_server.Debug.Scrubbed.{Scrubbed}
use holler_server.Debug.Hidden.{redact_hlr_tokens_hides}
use holler_server.Debug.{
  DebugLevel, ok, err, parse_level, resolve_level, level_name, DebugConfig, is_noisy, Severity,
  debug, Direction, Event, new, will_emit, Detail, id, peer, field, frame, frame_of, add, build,
  emit, JsonLine, text, json, render_text, render_json,
}

add-cfg : (e : Event) (d : Detail) → ((add e d).cfg ≡ e.cfg) × ((add e d).severity ≡ e.severity)
unfolding add
add-cfg e (id value) = (refl, refl)
add-cfg e (peer value) = (refl, refl)
add-cfg e (field key value) = ground arith
add-cfg e (frame rendered) = ground arith
add-cfg e (frame_of none) = (refl, refl)
add-cfg e (frame_of (some rendered)) = ground arith

build-cfg :
    (e : Event) (ds : List Detail)
    → ((build e ds).cfg ≡ e.cfg) × ((build e ds).severity ≡ e.severity)
unfolding build
build-cfg e [] = (refl, refl)
build-cfg e (d ∷ ds) =
    let one = add-cfg e d in let rest = build-cfg (add e d) ds in (rest.0 ∙ one.0, rest.1 ∙ one.1)

abbrev line_of : (JsonLine → Option (List ℕ)) → List ℕ → Event → List ℕ
line_of to_string ts e = elim e.cfg.format [
  | text ↦ render_text ts e
  | json ↦ render_json to_string ts e
]

will_emit-off :
    (e : Event) → will_emit e ≡ false → (e.severity ≡ debug) × (e.cfg.level ≡ DebugLevel.off)
unfolding will_emit
will_emit-off e w = ground (arith, w)

will_emit-debug :
    (e : Event) → e.severity ≡ debug → will_emit e ≡ true → e.cfg.level ≢ DebugLevel.off
unfolding will_emit
will_emit-debug e d w o = ground (arith, w, d, o)

-- Lines of the trace are written only if a level is set, and lines of the other severities always:
-- whatever is put into a line, it is written exactly if its severity is not debug or the level is
-- not none.
pub trace_needs_level :
    (to_string : JsonLine → Option (List ℕ)) (ts : List ℕ) (cfg : DebugConfig) (severity : Severity)
    (dir : Direction) (component kind : List ℕ) (ds : List Detail)
    → let line = emit to_string ts (build (new cfg severity dir component kind) ds) in
      ((line ≡ none) × (severity ≡ debug) × (cfg.level ≡ DebugLevel.off))
      ⊎ ((text : List ℕ) × (line ≡ some text) × ((severity ≡ debug) → cfg.level ≢ DebugLevel.off))
unfolding emit will_emit
trace_needs_level to_string ts cfg severity dir component kind ds =
    let e = build (new cfg severity dir component kind) ds in
    let (same, kept) = build-cfg (new cfg severity dir component kind) ds in
    elim (Bool-cases (will_emit e)) [
      | inl w ↦ inr (
        line_of to_string ts e,
        ground (arith, w),
        λ d o. ground (arith, will_emit-debug e (kept ∙ d) w, same, o),
      )
      | inr w ↦
          let (d, o) = will_emit-off e w in
          inl (ground (arith, w), sym kept ∙ d, sym (ap (λ (c : DebugConfig). c.level) same) ∙ o)
    ]

-- Any detail but a frame that the caller has rendered itself.
pub data IsTyped : Detail → Type 0 where
  id_typed : {value : List ℕ} → IsTyped (id value)
  peer_typed : {value : List ℕ} → IsTyped (peer value)
  field_typed : {key value : List ℕ} → IsTyped (field key value)
  frame_typed : {rendered : Option (List ℕ)} → IsTyped (frame_of rendered)

-- A frame that was put in.
abbrev pub IsPut : List ℕ → List Detail → Type 0
IsPut rendered [] = ⊥
IsPut rendered (d ∷ ds) = (d ≡ frame_of (some rendered)) ⊎ IsPut rendered ds

-- The frame is the scrubbing of one that was put in, at the noisy level.
abbrev pub IsScrubbed : List Detail → Event → Type 0
IsScrubbed ds e =
    (f : List ℕ)
    → e.frame ≡ some f
    → (rendered : List ℕ) × IsPut rendered ds
      × Scrubbed rendered f
      × (e.cfg.level ≡ DebugLevel.noisy)

add-frame :
    (e : Event) (d : Detail) (f : List ℕ)
    → IsTyped d
    → (add e d).frame ≡ some f
    → (e.frame ≡ some f)
      ⊎ ((rendered : List ℕ) × (d ≡ frame_of (some rendered))
          × Scrubbed rendered f
          × (e.cfg.level ≡ DebugLevel.noisy))
unfolding add
add-frame e (id value) f t q = inl q
add-frame e (peer value) f t q = inl q
add-frame e (field key value) f t q = inl (ground (arith, q))
add-frame e (frame rendered) f t q = elim t [ ]
add-frame e (frame_of none) f t q = inl q
add-frame e (frame_of (some rendered)) f t q =
    let (out, done, scrubbed, hidden, kept, again) = redact_hlr_tokens_hides rendered in
    elim (Bool-cases (is_noisy e.cfg)) [
      | inl n ↦
          let same : out ≡ f = ground (arith, q, n, done) in
          inr (rendered, refl, subst (Scrubbed rendered) same scrubbed, ground (arith, n))
      | inr n ↦ inl (ground (arith, q, n))
    ]

build-frame :
    (e : Event) (ds : List Detail) (f : List ℕ)
    → All IsTyped ds
    → (build e ds).frame ≡ some f
    → (e.frame ≡ some f)
      ⊎ ((rendered : List ℕ) × IsPut rendered ds
          × Scrubbed rendered f
          × (e.cfg.level ≡ DebugLevel.noisy))
unfolding build
build-frame e [] f t q = inl q
build-frame e (d ∷ ds) f (t, ts) q = elim (build-frame (add e d) ds f ts q) [
  | inl h ↦ elim (add-frame e d f t h) [
    | inl g ↦ inl g
    | inr (rendered, is, scrubbed, noisy) ↦ inr (rendered, inl is, scrubbed, noisy)
  ]
  | inr (rendered, put, scrubbed, noisy) ↦
      inr (
        rendered,
        inr put,
        scrubbed,
        ap (λ (c : DebugConfig). c.level) (sym (add-cfg e d).0) ∙ noisy,
      )
]

-- The frame of a line is a scrubbed one: where a line that is built with typed frames shows a frame, the
-- level is noisy, and the frame is one that was put in, with each token, the prefix and its whole
-- run, replaced. Nothing is stated of its id, its peer and its fields.
pub built-IsScrubbed :
    (cfg : DebugConfig) (severity : Severity) (dir : Direction) (component kind : List ℕ)
    (ds : List Detail)
    → All IsTyped ds
    → let e = build (new cfg severity dir component kind) ds in (e.cfg ≡ cfg) × IsScrubbed ds e
built-IsScrubbed cfg severity dir component kind ds t =
    let start = new cfg severity dir component kind in
    let same = (build-cfg start ds).0 in
    (
      same,
      λ f q. elim (build-frame start ds f t q) [
        | inl h ↦ absurd (ground (arith, h))
        | inr (rendered, put, scrubbed, noisy) ↦
            (rendered, put, scrubbed, ap (λ (c : DebugConfig). c.level) same ∙ noisy)
      ],
    )

no_level :
    (name : List ℕ)
    → same_text name (level_name DebugLevel.off) ≡ false
    → same_text name (level_name DebugLevel.quiet) ≡ false
    → same_text name (level_name DebugLevel.noisy) ≡ false
    → (level : DebugLevel) → same_text name (level_name level) ≡ false
no_level name a b c DebugLevel.off = a
no_level name a b c DebugLevel.quiet = b
no_level name a b c DebugLevel.noisy = c

parse_level_cases :
    (value : List ℕ)
    → ((level : DebugLevel) × (parse_level value ≡ ok level)
        × (same_text (to_ascii_lowercase value) (level_name level) ≡ true))
      ⊎ ((parse_level value ≡ err value)
          × ((level : DebugLevel)
              → same_text (to_ascii_lowercase value) (level_name level) ≡ false))
unfolding parse_level level_name
parse_level_cases value =
    let name = to_ascii_lowercase value in
    elim (Bool-cases (same_text name (codes "none"))) [
      | inl a ↦ inl (DebugLevel.off, ground (arith, a), a)
      | inr a ↦ elim (Bool-cases (same_text name (codes "quiet"))) [
        | inl b ↦ inl (DebugLevel.quiet, ground (arith, a, b), b)
        | inr b ↦ elim (Bool-cases (same_text name (codes "noisy"))) [
          | inl c ↦ inl (DebugLevel.noisy, ground (arith, a, b, c), c)
          | inr c ↦ inr (ground (arith, a, b, c), no_level name a b c)
        ]
      ]
    ]

-- What the level is taken from.
abbrev source_of : Option (List ℕ) → Option (List ℕ) → List ℕ
source_of (some flag) env = flag
source_of none (some value) = value
source_of none none = codes "none"

-- A level is never made up: if one is chosen, its name in some case is what the flag says, or, without a
-- flag, what the variable says, or else it is none; and if what counts is no level's name, the
-- error has that text, whatever the variable says.
resolve_level_lem :
    (flag env : Option (List ℕ))
    → ((level : DebugLevel) × (resolve_level flag env ≡ ok level)
        × (same_text (to_ascii_lowercase (source_of flag env)) (level_name level) ≡ true))
      ⊎ ((resolve_level flag env ≡ err (source_of flag env))
          × ((level : DebugLevel)
              → same_text (to_ascii_lowercase (source_of flag env)) (level_name level) ≡ false))
unfolding resolve_level level_name
resolve_level_lem (some flag) env = parse_level_cases flag
resolve_level_lem none (some value) = parse_level_cases value
resolve_level_lem none none = inl (DebugLevel.off, refl, refl)
