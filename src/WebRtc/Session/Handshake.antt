-- ===== src/WebRtc/Session/Handshake.antt =====
-- The handshake of a session in src/webrtc/webrtc_session.c and src/webrtc/dtls_srtp.c, from the
-- first record to the exported keys.
use ideal_broccoli.Base.{
  ℕ, ◌≡◌, ◌⊎◌, refl, sym, ap, subst, ◌∙◌, Bool, true, false, not, ◌&&◌, Bool-cases, inl, inr,
  Option, Option-cases, List, arith,
}
use ideal_broccoli.WebRtc.IceLite.{Peer}
use ideal_broccoli.WebRtc.Dtls.{
  DtlsState, DtlsSrtp, Derivation, same_state, is_expected, derive_srtp_keys,
}
use ideal_broccoli.WebRtc.Session.{
  RtcSession, RtcSessionState, Env, SslOutcome, ssl_call, dtls_set_state, on_state, registered,
  on_connected, start_handshake, continue_handshake, connect, finish_pump, pump_ssl,
}
use ideal_broccoli.WebRtc.Session.Core.{
  Core, core, quiet, with_engine, core-ssl_call, core-request_idr,
}
use ideal_broccoli.WebRtc.Session.Life.{
  Life, LifeStep, LifeSteps, Certified, is_expected-Certified, At, Lives, Lives-trans, stays,
}
use ideal_broccoli.WebRtc.Session.Ending.{Alive, Stands-Alive, fails, hangs_up}

-- The keys are exported together with the flag, after the test of the certificate.
derive_srtp_keys_lem :
    (answer : Derivation) (d : DtlsSrtp)
    → let r = derive_srtp_keys answer d in
      ((r.1 ≡ false) × (quiet r.0 ≡ quiet d))
      ⊎ ((r.1 ≡ true)
          × (quiet r.0 ≡ (d.state, d.handshake_started, true, d.expected_fingerprint))
          × Certified d.expected_fingerprint answer.peer_digest)
unfolding derive_srtp_keys
derive_srtp_keys_lem answer d = elim (Option-cases answer.material) [
  | inl e ↦ rw (derive_srtp_keys, e) (inl (refl, refl))
  | inr (material, e) ↦ elim (Bool-cases answer.out_created) [
    | inr a ↦ rw (derive_srtp_keys, e, a) (inl (refl, refl))
    | inl a ↦ elim (Bool-cases answer.in_created) [
      | inr b ↦ rw (derive_srtp_keys, e, a, b) (inl (refl, refl))
      | inl b ↦ elim (Bool-cases (is_expected d.expected_fingerprint answer.peer_digest)) [
        | inr c ↦ rw (derive_srtp_keys, e, a, b, c) (inl (refl, refl))
        | inl c ↦
            rw (derive_srtp_keys, e, a, b, c)
              (inr (refl, refl, is_expected-Certified d.expected_fingerprint answer.peer_digest c))
      ]
    ]
  ]
]

-- A place where the handshake has begun.
pub data Begun : Life → Type 0 where
  in_greeting : (p : Peer) → Begun (Life.greeting p)
  in_streaming : (p : Peer) (digest : Option (List ℕ)) → Begun (Life.streaming p digest)

SslOutcome-cases :
    (o : SslOutcome)
    → (o ≡ SslOutcome.done) ⊎ (o ≡ SslOutcome.again) ⊎ (o ≡ SslOutcome.error) ⊎ (o ≡ SslOutcome.eof)
SslOutcome-cases SslOutcome.done = inl refl
SslOutcome-cases SslOutcome.again = inr (inl refl)
SslOutcome-cases SslOutcome.error = inr (inr (inl refl))
SslOutcome-cases SslOutcome.eof = inr (inr (inr refl))

-- The session after the first call of the handshake.
abbrev greeted : Env → RtcSession → RtcSession
greeted env s = ssl_call env.accept (
    dtls_set_state (registered env) DtlsState.handshaking
      (record s { dtls = record s.dtls { handshake_started = true } }))

-- A place with a peer.
pub data Met : Life → Type 0 where
  in_checked : (p : Peer) → Met (Life.checked p)
  in_greeting : (p : Peer) → Met (Life.greeting p)
  in_streaming : (p : Peer) (digest : Option (List ℕ)) → Met (Life.streaming p digest)

module _ (offer : List ℕ) where
  -- The session in front of `on_connected`, when the engine has its keys.
  keyed :
      (p : Peer) (env : Env) (s : RtcSession) (d : DtlsSrtp)
      → At offer (Life.greeting p) (core s)
      → quiet d ≡ (s.dtls.state, s.dtls.handshake_started, true, s.dtls.expected_fingerprint)
      → (digest : Option (List ℕ)) → Certified s.dtls.expected_fingerprint digest
      → At offer (Life.streaming p digest) (
          core (
            on_connected env
              (dtls_set_state (registered env) DtlsState.connected (record s { dtls = d }))))
  unfolding dtls_set_state on_connected on_state
  keyed p env s d at e digest test =
      let differs : same_state d.state DtlsState.connected ≡ false =
        ap (λ (q : DtlsState × Bool × Bool × List ℕ). same_state q.0 DtlsState.connected) e
        ∙ ap (λ x. same_state x DtlsState.connected) at.dtls_eq in
      let before : RtcSession = record s {
        dtls = record d { state = DtlsState.connected };
        state = RtcSessionState.streaming;
      } in
      let target : Core = record (core s) {
        state = RtcSessionState.streaming;
        dtls_state = DtlsState.connected;
        ready = true;
      } in
      let same : core before ≡ target =
        ap
          (λ (q : DtlsState × Bool × Bool × List ℕ).
            with_engine before (DtlsState.connected, q.1, q.2, q.3))
          e in
      subst (At offer (Life.streaming p digest))
        (sym (rw (dtls_set_state, differs) (core-request_idr env before ∙ same)))
        (
          record {
            state_eq = refl;
            dtls_eq = refl;
            remote_eq = at.remote_eq;
            started_eq = at.started_eq;
            ready_eq = refl;
            calls_eq = at.calls_eq;
            expected_eq = at.expected_eq;
          },
          subst (λ x. Certified x digest) at.expected_eq test,
        )

  connect_lives :
      (p : Peer) (env : Env) (s : RtcSession)
      → At offer (Life.greeting p) (core s)
      → Lives offer env (Life.greeting p) (core (connect env s))
  unfolding connect
  connect_lives p env s at =
      let d = (derive_srtp_keys env.derivation s.dtls).0 in
      let s' = record s { dtls = d } in
      elim (derive_srtp_keys_lem env.derivation s.dtls) [
        | inl (e, same) ↦
            let kept : core s' ≡ core s = ap (with_engine s) same in
            let alive : Alive offer (core s') =
              subst (Alive offer) (sym kept) (Stands-Alive offer (core s) at refl refl refl) in
            rw (connect, e) (fails offer (Life.greeting p) env s' alive)
        | inr (e, same, test) ↦
            rw (connect, e)
              (Lives.lives (Life.streaming p env.derivation.peer_digest)
                (LifeSteps.step LifeSteps.stay (LifeStep.stream p))
                (keyed p env s d at same env.derivation.peer_digest test))
      ]

  goes_on_greeting :
      (p : Peer) (env : Env) (s : RtcSession)
      → At offer (Life.greeting p) (core s)
      → Lives offer env (Life.greeting p) (core (finish_pump env (s, true)))
  unfolding finish_pump
  goes_on_greeting p env s at = elim (Bool-cases (not s.dtls.srtp_ready && env.finished)) [
    | inl e ↦ rw (finish_pump, e) (connect_lives p env s at)
    | inr e ↦ rw (finish_pump, e) (stays (Life.greeting p) (core s) (core s) refl at)
  ]

  goes_on_streaming :
      (p : Peer) (digest : Option (List ℕ)) (env : Env) (s : RtcSession)
      → At offer (Life.streaming p digest) (core s)
      → Lives offer env (Life.streaming p digest) (core (finish_pump env (s, true)))
  unfolding finish_pump
  goes_on_streaming p digest env s at =
      let ready : (not s.dtls.srtp_ready && env.finished) ≡ false =
        ap (λ r. not r && env.finished) at.0.ready_eq in
      rw (finish_pump, ready) (stays (Life.streaming p digest) (core s) (core s) refl at)

  goes_on :
      (l : Life) (env : Env) (s : RtcSession)
      → Begun l
      → At offer l (core s)
      → Lives offer env l (core (finish_pump env (s, true)))
  goes_on l env s (in_greeting p) at = goes_on_greeting p env s at
  goes_on l env s (in_streaming p digest) at = goes_on_streaming p digest env s at

  Begun-Alive : (l : Life) (c : Core) → Begun l → At offer l c → Alive offer c
  Begun-Alive l c (in_greeting p) at = Stands-Alive offer c at refl refl refl
  Begun-Alive l c (in_streaming p digest) at = Stands-Alive offer c at.0 refl refl refl

  Begun-started : (l : Life) (c : Core) → Begun l → At offer l c → c.started ≡ true
  Begun-started l c (in_greeting p) at = at.started_eq
  Begun-started l c (in_streaming p digest) at = at.0.started_eq

  continue_lives :
      (l : Life) (env : Env) (s : RtcSession)
      → Begun l
      → At offer l (core s)
      → Lives offer env l (core (finish_pump env (continue_handshake env s)))
  unfolding continue_handshake finish_pump
  continue_lives l env s begun at =
      let s' = ssl_call env.read s in
      let at' : At offer l (core s') = subst (At offer l) (sym (core-ssl_call env.read s)) at in
      let alive = Begun-Alive l (core s') begun at' in
      elim (SslOutcome-cases env.read.outcome) [
        | inl e ↦ simp (continue_handshake, e) (goes_on l env s' begun at')
        | inr (inl e) ↦ simp (continue_handshake, e) (goes_on l env s' begun at')
        | inr (inr (inl e)) ↦ simp (continue_handshake, e) (fails offer l env s' alive)
        | inr (inr (inr e)) ↦ simp (continue_handshake, e) (hangs_up offer l env s' alive)
      ]

  At-greeted :
      (p : Peer) (env : Env) (s : RtcSession)
      → At offer (Life.checked p) (core s)
      → At offer (Life.greeting p) (core (greeted env s))
  unfolding dtls_set_state on_state
  At-greeted p env s at =
      let differs : same_state s.dtls.state DtlsState.handshaking ≡ false =
        ap (λ x. same_state x DtlsState.handshaking) at.dtls_eq in
      let before =
        dtls_set_state (registered env) DtlsState.handshaking
          (record s { dtls = record s.dtls { handshake_started = true } }) in
      let target : Core = record (core s) {
        state = RtcSessionState.dtls;
        dtls_state = DtlsState.handshaking;
        started = true;
      } in
      let same : core before ≡ target = rw (dtls_set_state, differs) refl in
      subst (At offer (Life.greeting p)) (sym (core-ssl_call env.accept before ∙ same)) (record {
        state_eq = refl;
        dtls_eq = refl;
        remote_eq = at.remote_eq;
        started_eq = refl;
        ready_eq = at.ready_eq;
        calls_eq = at.calls_eq;
        expected_eq = at.expected_eq;
      })

  start_lives :
      (p : Peer) (env : Env) (s : RtcSession)
      → At offer (Life.checked p) (core s)
      → Lives offer env (Life.checked p) (core (finish_pump env (start_handshake env s)))
  unfolding start_handshake finish_pump
  start_lives p env s at =
      let s' = greeted env s in
      let at' = At-greeted p env s at in
      let alive = Stands-Alive offer (core s') at' refl refl refl in
      let begin = LifeSteps.step LifeSteps.stay (LifeStep.greet p) in
      elim (SslOutcome-cases env.accept.outcome) [
        | inl e ↦ simp (start_handshake, e) (Lives-trans begin (goes_on_greeting p env s' at'))
        | inr (inl e) ↦
            simp (start_handshake, e) (Lives-trans begin (goes_on_greeting p env s' at'))
        | inr (inr (inl e)) ↦
            simp (start_handshake, e)
              (Lives-trans begin (fails offer (Life.greeting p) env s' alive))
        | inr (inr (inr e)) ↦
            simp (start_handshake, e)
              (Lives-trans begin (fails offer (Life.greeting p) env s' alive))
      ]

  pump_begun :
      (l : Life) (env : Env) (s : RtcSession)
      → Begun l
      → At offer l (core s)
      → Lives offer env l (core (pump_ssl env s))
  unfolding pump_ssl
  pump_begun l env s begun at =
      let alive = Begun-Alive l (core s) begun at in
      simp (pump_ssl, alive.not_ended, alive.not_failed, Begun-started l (core s) begun at)
        (continue_lives l env s begun at)

  pump_checked :
      (p : Peer) (env : Env) (s : RtcSession)
      → At offer (Life.checked p) (core s)
      → Lives offer env (Life.checked p) (core (pump_ssl env s))
  unfolding pump_ssl
  pump_checked p env s at =
      let alive = Stands-Alive offer (core s) at refl refl refl in
      simp (pump_ssl, alive.not_ended, alive.not_failed, at.started_eq) (start_lives p env s at)

  pub pump_lives :
      (l : Life) (env : Env) (s : RtcSession)
      → Met l
      → At offer l (core s)
      → Lives offer env l (core (pump_ssl env s))
  pump_lives l env s (Met.in_checked p) at = pump_checked p env s at
  pump_lives l env s (Met.in_greeting p) at = pump_begun l env s (Begun.in_greeting p) at
  pump_lives l env s (Met.in_streaming p digest) at =
      pump_begun l env s (Begun.in_streaming p digest) at

  -- Only an engine with a peer is ever in a handshake.
  pub handshaking-Met :
      (l : Life) (c : Core)
      → At offer l c
      → same_state c.dtls_state DtlsState.handshaking ≡ true
      → Met l
  handshaking-Met Life.fresh c at h =
      ground (arith, h, ap (λ x. same_state x DtlsState.handshaking) at.dtls_eq)
  handshaking-Met (Life.checked p) c at h = Met.in_checked p
  handshaking-Met (Life.greeting p) c at h = Met.in_greeting p
  handshaking-Met (Life.streaming p digest) c at h = Met.in_streaming p digest
  handshaking-Met Life.over c at h =
      ground (arith, h, ap (λ x. same_state x DtlsState.handshaking) at.1)

  pub Met-Alive : (l : Life) (c : Core) → Met l → At offer l c → Alive offer c
  Met-Alive l c (Met.in_checked p) at = Stands-Alive offer c at refl refl refl
  Met-Alive l c (Met.in_greeting p) at = Stands-Alive offer c at refl refl refl
  Met-Alive l c (Met.in_streaming p digest) at = Stands-Alive offer c at.0 refl refl refl
