-- ===== src/Wire/Connection/Guesses.antt =====
-- Guessing credentials against src/wire/connection.rs: the lockout of src/wire/lockout.rs as the
-- connections of one address meet it.
use holler_server.Prelude.{
  ℕ, suc, ◌+◌, ◌^◌, ◌≤◌, ◌<◌, ◌≡◌, refl, ap, ◌∙◌, true, false, String, List, [], ◌∷◌, none, some,
  arith, map, length, All,
}
use holler_server.Prelude.Dict.{get}
use holler_server.Net.{IpAddr, ip_eq}
use holler_server.Lockout.{LockoutTracker, is_locked_out, record_failure, ban}
use holler_server.Lockout.Bounds.{run, step, fails, step-SameParams}
use holler_server.Lockout.Bans.{
  Clean, Within, run-Clean, locked_by_the_last, run-SameParams, locked_entry,
}
use holler_server.Token.Record.{TokenError, err}
use holler_server.Token.Disk.{Disk}
use holler_server.Token.Store.{verify_credential}
use holler_server.Proto.Json.{as_str}
use holler_server.Proto.{Body, AuthBody, Envelope}
use holler_server.Proto.Codec.{Decoded}
use holler_server.Proto.Decode.{decode}
use holler_server.Wire.Connection.{
  Server, Context, Incoming, next_text_frame, in_time, code_unauthenticated,
}
use holler_server.Wire.Connection.Admission.{closed, first_frame, first_body, authenticate, reject}
use holler_server.Wire.Connection.Session.{Script, Ran, ran, over, handle_connection, admit}

module _ {Contents : Type 0} (ctx : Context Contents) where
  -- A connection from an address that sends, in time, an `auth` that the store refuses, and during
  -- which nothing else happens.
  pub record IsGuess (ip : IpAddr) (d : Disk) (c : Script Contents) : Type 0 where
    pub peer : c.peer ≡ ip
    pub handshakes : c.handshakes ≡ true
    pub alone : (s : Server Contents) → c.before_first s ≡ s
    pub raw : String
    pub rest : List Incoming
    pub arrives : next_text_frame (in_time ctx.limits.pre_auth_timeout c.first) ≡ some (raw, rest)
    pub env : Envelope
    pub auth : AuthBody
    pub credential : String
    pub error : TokenError
    pub decodes : decode ctx.serde raw ≡ Decoded.ok env
    pub is_auth : env.body ≡ Body.auth auth
    pub is_text : as_str (some auth.credential) ≡ some credential
    pub refused :
        verify_credential ctx.platform ctx.pepper env.from credential c.attempt.wall d
        ≡ (err error, d)

  guess-frame :
      (ip : IpAddr) (s : Server Contents) (c : Script Contents) (g : IsGuess ip s.disk c)
      → first_frame ctx c.peer c.attempt g.raw s ≡ (
        record s { lockout = (record_failure s.lockout ip c.attempt.instant).0 },
        closed (reject code_unauthenticated "authentication failed" g.env ∷ []),
      )
  unfolding first_frame first_body authenticate
  guess-frame ip s c g =
      let a = g.decodes in
      let b = g.is_auth in let c' = g.is_text in let d = g.refused in let e = g.peer in ground arith

  is_locked_out-free :
      (t : LockoutTracker) (ip : IpAddr) (now : ℕ)
      → ban (get t.by_ip ip) ≡ none
      → is_locked_out t ip now ≡ (t, false)
  unfolding is_locked_out
  is_locked_out-free t ip now e = ground (arith, e)

  handle-guess :
      (ip : IpAddr) (s : Server Contents) (c : Script Contents) (g : IsGuess ip s.disk c)
      → ban (get s.lockout.by_ip ip) ≡ none
      → handle_connection ctx c s
        ≡ ran
            (record s { lockout = (record_failure s.lockout ip c.attempt.instant).0 })
            (reject code_unauthenticated "authentication failed" g.env ∷ [])
            (over false)
  unfolding handle_connection admit
  handle-guess ip s c g free =
      let checked = is_locked_out-free s.lockout ip c.accepted_at free in
      let a = g.arrives in
      let b = guess-frame ip s c g in
      let e = g.alone s in let h = g.handshakes in let p = g.peer in ground arith

  handle-banned :
      (c : Script Contents) (s : Server Contents) (until : ℕ)
      → ban (get s.lockout.by_ip c.peer) ≡ some until
      → c.accepted_at < until
      → handle_connection ctx c s ≡ ran s [] (over false)
  unfolding handle_connection is_locked_out
  handle-banned c s until e lt = ground (arith, e, lt)

  Clean-ban :
      (start n : ℕ) (t : LockoutTracker) (ip : IpAddr)
      → Clean start n t ip
      → ban (get t.by_ip ip) ≡ none
  Clean-ban start n t ip c = let f = c.free in ground arith

  -- Connections one after the other.
  unfoldable pub serve_all : List (Script Contents) → Server Contents → Server Contents
  serve_all [] s = s
  serve_all (c ∷ cs) s = serve_all cs (handle_connection ctx c s).server

  abbrev failed_at : List (Script Contents) → List ℕ
  failed_at cs = map (λ (c : Script Contents). c.attempt.instant) cs

  length-failed_at : (cs : List (Script Contents)) → length (failed_at cs) ≡ length cs
  length-failed_at [] = refl
  length-failed_at (c ∷ cs) = ap suc (length-failed_at cs)

  serve_all-guesses :
      (ip : IpAddr) (start n : ℕ) (s : Server Contents) (cs : List (Script Contents))
      → All (IsGuess ip s.disk) cs
      → Within start s.lockout.window (failed_at cs)
      → n + length cs < s.lockout.max_failures
      → s.lockout.max_failures < 2 ^ 32
      → Clean start n s.lockout ip
      → serve_all cs s ≡ record s { lockout = run s.lockout (map (fails ip) (failed_at cs)) }
  unfolding serve_all run step
  serve_all-guesses ip start n s [] g w m b c = refl
  serve_all-guesses ip start n s (x ∷ cs) g w m b c =
      let t = step s.lockout (fails ip x.attempt.instant) in
      let s1 : Server Contents = record s { lockout = t } in
      let same = step-SameParams s.lockout (fails ip x.attempt.instant) in
      let one = handle-guess ip s x g.0 (Clean-ban start n s.lockout ip c) in
      let next : Clean start (n + 1) t ip =
        run-Clean start n s.lockout ip (x.attempt.instant ∷ []) (w.0, tt) (omega (arith, m)) b c in
      let rest =
        serve_all-guesses ip start (n + 1) s1 cs g.1 (rw same.window w.1)
          (rw same.max_failures (omega (arith, m))) (rw same.max_failures b) next in
      ap (λ (r : Ran Contents). serve_all cs r.server) one ∙ rest

  -- Guessing does not pay: when an address of which nothing is known makes `max_failures` connections,
  -- one after the other and within one window, each with an `auth` that the store refuses, then every
  -- further connection from it, until `lockout_duration` after the last of them, is dropped without
  -- a reply and changes nothing, whatever it sends, a valid credential included.
  pub guessing_locks_out :
      (ip : IpAddr) (start : ℕ) (s : Server Contents) (cs : List (Script Contents))
      (last next : Script Contents)
      → get s.lockout.by_ip ip ≡ none
      → s.lockout.max_failures < 2 ^ 32
      → length cs + 1 ≡ s.lockout.max_failures
      → All (IsGuess ip s.disk) cs
      → IsGuess ip s.disk last
      → Within start s.lockout.window (failed_at cs)
      → start ≤ last.attempt.instant
      → last.attempt.instant < start + s.lockout.window
      → next.peer ≡ ip
      → next.accepted_at < last.attempt.instant + s.lockout.lockout_duration
      → let s' = (handle_connection ctx last (serve_all cs s)).server in
        handle_connection ctx next s' ≡ ran s' [] (over false)
  guessing_locks_out ip start s cs last next fresh word count gs g w a l p x =
      let start_clean : Clean start 0 s.lockout ip = record {
        free = rw fresh refl;
        within = rw fresh tt;
        number = rw fresh refl;
      } in
      let q = run s.lockout (map (fails ip) (failed_at cs)) in
      let s1 : Server Contents = record s { lockout = q } in
      let before : serve_all cs s ≡ s1 =
        serve_all-guesses ip start 0 s cs gs w (omega (arith, count)) word start_clean in
      let clean =
        run-Clean start 0 s.lockout ip (failed_at cs) w
          (rw (length-failed_at cs) (omega (arith, count))) word start_clean in
      let one = handle-guess ip s1 last g (Clean-ban start _ q ip clean) in
      let locks =
        locked_by_the_last s.lockout ip start (failed_at cs) last.attempt.instant fresh word
          (rw (length-failed_at cs) (omega (arith, count))) w a l in
      let s2 : Server Contents = record s {
        lockout = (record_failure q ip last.attempt.instant).0;
      } in
      let after : (handle_connection ctx last (serve_all cs s)).server ≡ s2 =
        ap (λ s. (handle_connection ctx last s).server) before
        ∙ ap (λ (r : Ran Contents). r.server) one in
      let same = (run-SameParams s.lockout (map (fails ip) (failed_at cs))).lockout_duration in
      let entry =
        locked_entry q ip last.attempt.instant
          (rw (locks, length-failed_at cs) (ground (arith, count))) in
      rw after
        (handle-banned next s2 (last.attempt.instant + q.lockout_duration) (rw p entry) (rw same x))
