-- ===== src/Command/Start.antt =====
-- What `serve` of src/main.rs and src/wire/mod.rs listens on, and what it writes down for `token mint`.
use holler_server.Prelude.{
  ℕ, ◌≡◌, refl, ap, ◌∙◌, true, String, List, [], ◌∷◌, Option, none, some, arith, All, length,
  Bool-cases, Option-cases, inl, inr, ◌⊎◌,
}
use holler_server.Net.{SocketAddr, is_loopback}
use holler_server.Advertise.{
  Json, succeeds, AdvertiseRecord, reachable, loopback_only, resolve_advertise, first_advertisable,
  is_advertisable_ip, persist, read,
}
use holler_server.Wire.Accept.{
  StartError, non_loopback_without_tls, Started, System, serve, not_loopback, bind_all,
}
use holler_server.Command.{listening, failed, start, ServeArgs, persist_and_serve, of_started}

not_loopback-All :
    (addrs : List SocketAddr)
    → not_loopback addrs ≡ none
    → All (λ (a : SocketAddr). is_loopback a.ip ≡ true) addrs
unfolding not_loopback
not_loopback-All [] h = tt
not_loopback-All (a ∷ addrs) h = elim (Bool-cases (is_loopback a.ip)) [
  | inl e ↦ (e, not_loopback-All addrs (ground (arith, h, e)))
  | inr e ↦ absurd (ground (arith, h, e))
]

Started-cases :
    {A : Type 0} (x : Started A)
    → ((a : A) × (x ≡ Started.ok a)) ⊎ ((e : StartError) × (x ≡ Started.err e))
Started-cases (Started.ok a) = inl (a, refl)
Started-cases (Started.err e) = inr (e, refl)

length-bind_all :
    (bind : SocketAddr → Started SocketAddr) (addrs bound : List SocketAddr)
    → bind_all bind addrs ≡ Started.ok bound
    → length bound ≡ length addrs
unfolding bind_all
length-bind_all bind [] bound h = ground (arith, h)
length-bind_all bind (a ∷ addrs) bound h = elim (Started-cases (bind a)) [
  | inr (e, f) ↦ absurd (ground (arith, h, f))
  | inl (b, f) ↦ elim (Started-cases (bind_all bind addrs)) [
    | inr (e, g) ↦ absurd (ground (arith, h, f, g))
    | inl (rest, g) ↦ ground (arith, h, f, g, length-bind_all bind addrs rest g)
  ]
]

serve-bound :
    (sys : System) (addrs bound : List SocketAddr)
    → serve sys addrs ≡ Started.ok bound
    → (not_loopback addrs ≡ none) × (bind_all sys.bind addrs ≡ Started.ok bound)
unfolding serve
serve-bound sys addrs bound h = elim (Option-cases (not_loopback addrs)) [
  | inr (a, e) ↦ absurd (ground (arith, h, e))
  | inl e ↦ elim (Started-cases sys.hostname) [
    | inr (x, f) ↦ absurd (ground (arith, h, e, f))
    | inl (name, f) ↦ elim (Started-cases sys.open_store) [
      | inr (x, g) ↦ absurd (ground (arith, h, e, f, g))
      | inl (u, g) ↦ elim (Started-cases sys.bind_control_socket) [
        | inr (x, k) ↦ absurd (ground (arith, h, e, f, g, k))
        | inl (v, k) ↦ (e, ground (arith, h, e, f, g, k))
      ]
    ]
  ]
]

-- Plain `ws` stays on the machine: a server that starts was asked for loopback addresses only, and has
-- bound one address for each of them.
pub serves_loopback_only :
    (sys : System) (addrs bound : List SocketAddr)
    → serve sys addrs ≡ Started.ok bound
    → All (λ (a : SocketAddr). is_loopback a.ip ≡ true) addrs × (length bound ≡ length addrs)
serves_loopback_only sys addrs bound h =
    let (e, b) = serve-bound sys addrs bound h in
    (not_loopback-All addrs e, length-bind_all sys.bind addrs bound b)

loopback-first_advertisable :
    (shown : SocketAddr → String) (addrs : List SocketAddr)
    → not_loopback addrs ≡ none
    → first_advertisable shown addrs ≡ none
unfolding not_loopback first_advertisable is_advertisable_ip
loopback-first_advertisable shown [] h = refl
loopback-first_advertisable shown (a ∷ addrs) h = elim (Bool-cases (is_loopback a.ip)) [
  | inl e ↦
      let rest = loopback-first_advertisable shown addrs (ground (arith, h, e)) in
      ground (arith, h, e, rest)
  | inr e ↦ absurd (ground (arith, h, e))
]

refused-serve :
    (sys : System) (addrs : List SocketAddr) (a : SocketAddr)
    → not_loopback addrs ≡ some a
    → serve sys addrs ≡ Started.err (non_loopback_without_tls a)
unfolding serve
refused-serve sys addrs a h = ground (arith, h)

module _ {Contents : Type 0} (j : Json Contents) (shown : SocketAddr → String) where
  -- What was written is read back.
  abbrev pub IsLawful : Type 0
  IsLawful = (r : AdvertiseRecord) → j.from_str (j.to_string r) ≡ some r

  read-persist :
      (l : IsLawful) (advertise : Option String) (before : Option Contents)
      → read j (persist j succeeds advertise before).1
        ≡ (elim advertise [ none ↦ loopback_only | some a ↦ reachable a ])
  unfolding read persist
  read-persist l none before = ground (arith, l (record { address = none }))
  read-persist l (some a) before = ground (arith, l (record { address = some a }))

  persisted :
      (parse : List ℕ → Option SocketAddr) (args : ServeArgs Contents) (addrs : List SocketAddr)
      (before : Option Contents)
      → args.advertise ≡ none
      → args.opens_store ≡ true
      → args.written ≡ succeeds
      → persist_and_serve j parse shown args addrs before ≡ (
        of_started (serve args.system addrs),
        (persist j succeeds (first_advertisable shown addrs) before).1,
      )
  unfolding persist_and_serve resolve_advertise persist
  persisted parse args addrs before flag opened written = ground (arith, flag, opened, written)

  -- Without `--advertise`, and where the file can be written: a server that starts leaves the note that
  -- there is no address to reach it at; so if `token mint` is told an address afterwards, the start
  -- was refused, because of an address that is not loopback. The file is written all the same.
  pub advertised_only_if_refused :
      (parse : List ℕ → Option SocketAddr) (args : ServeArgs Contents) (addrs : List SocketAddr)
      (before : Option Contents)
      → IsLawful
      → args.advertise ≡ none
      → args.opens_store ≡ true
      → args.written ≡ succeeds
      → let (ran, after) = persist_and_serve j parse shown args addrs before in
        ((bound : List SocketAddr) → ran ≡ listening bound → read j after ≡ loopback_only)
        × ((text : String)
            → read j after ≡ reachable text
            → (a : SocketAddr) × (ran ≡ failed (start (non_loopback_without_tls a))))
  advertised_only_if_refused parse args addrs before l flag opened written =
      let file = read-persist l (first_advertisable shown addrs) before in
      rw (persisted parse args addrs before flag opened written)
        (elim (Option-cases (not_loopback addrs)) [
          | inl e ↦
              let noted : read j (persist j succeeds (first_advertisable shown addrs) before).1
                  ≡ loopback_only =
                file ∙ rw (loopback-first_advertisable shown addrs e) refl in
              (λ bound h. noted, λ text h. absurd (ground (arith, h, noted)))
          | inr (a, e) ↦
              let refusal = ap of_started (refused-serve args.system addrs a e) in
              (λ bound h. absurd (ground (arith, h, refusal)), λ text h. (a, refusal))
        ])
