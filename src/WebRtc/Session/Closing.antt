-- ===== src/WebRtc/Session/Closing.antt =====
-- The close of a session in src/webrtc/webrtc_session.c, which the engine calls back.
use ideal_broccoli.Base.{
  ℕ, zero, suc, ◌+◌, ◌≡◌, ◌≢◌, ◌⊎◌, refl, sym, ap, ◌∙◌, true, false, Bool-cases, inl, inr, arith,
  if◌then◌else◌,
}
use ideal_broccoli.WebRtc.Dtls.{DtlsState, same_state}
use ideal_broccoli.WebRtc.Session.{
  RtcSession, RtcSessionState, Env, is_in, write_all, on_state, dtls_close, close_on,
  rtc_session_close,
}
use ideal_broccoli.WebRtc.Session.Core.{Core, core, core-write_all}

pub same_state-eq : (a b : DtlsState) → same_state a b ≡ true → a ≡ b
same_state-eq a b h = ground arith

pub is_in-eq : (a b : RtcSessionState) → is_in a b ≡ true → a ≡ b
is_in-eq a b h = ground arith

is_in-ne : (a b : RtcSessionState) → is_in a b ≡ false → a ≢ b
is_in-ne a b h e = ground (arith, h, e)

-- A session that is closed stays as it is.
pub closed_stays :
    (n : ℕ) (env : Env) (s : RtcSession) → s.state ≡ RtcSessionState.closed → close_on n env s ≡ s
unfolding close_on
closed_stays zero env s h = refl
closed_stays (suc n) env s h = rw (close_on, h) refl

-- The alert that ends the connection.
abbrev pub say_goodbye : Env → RtcSession → RtcSession
say_goodbye env s =
    if same_state s.dtls.state DtlsState.connected then write_all env.shutdown s else s

core-say_goodbye : (env : Env) (s : RtcSession) → core (say_goodbye env s) ≡ core s
core-say_goodbye env s = elim (Bool-cases (same_state s.dtls.state DtlsState.connected)) [
  | inl e ↦ rw e (core-write_all env.shutdown s)
  | inr e ↦ rw e refl
]

abbrev silent : RtcSession → RtcSession
silent s = record s { dtls = record s.dtls { state = DtlsState.closed } }

-- The callback finds the session closed.
dtls_close_lem :
    (n : ℕ) (env : Env) (s : RtcSession)
    → s.state ≡ RtcSessionState.closed
    → dtls_close env (on_state (close_on n env)) s ≡ silent (say_goodbye env s)
unfolding dtls_close on_state
dtls_close_lem n env s h =
    let t = say_goodbye env s in
    let ended : t.state ≡ RtcSessionState.closed =
      ap (λ (c : Core). c.state) (core-say_goodbye env s) ∙ h in
    elim (Bool-cases (same_state t.dtls.state DtlsState.closed)) [
      | inl e ↦
          rw (dtls_close, e)
            (ap (λ x. record t { dtls = record t.dtls { state = x } })
              (same_state-eq t.dtls.state DtlsState.closed e))
      | inr e ↦ rw (dtls_close, e) (closed_stays n env (silent t) ended)
    ]

-- What the close of an open session leaves.
abbrev ended : Env → RtcSession → RtcSession
ended env s =
    let t = silent (say_goodbye env (record s { state = RtcSessionState.closed })) in
    record t { closed_calls = t.closed_calls + 1 }

close_open :
    (n : ℕ) (env : Env) (s : RtcSession)
    → is_in s.state RtcSessionState.closed ≡ false
    → close_on (suc n) env s ≡ ended env s
unfolding close_on
close_open n env s h =
    rw (close_on, h)
      (ap (λ (t : RtcSession). record t { closed_calls = t.closed_calls + 1 })
        (dtls_close_lem n env (record s { state = RtcSessionState.closed }) refl))

abbrev pub over : Core → Core
over c = record c {
  state = RtcSessionState.closed;
  dtls_state = DtlsState.closed;
  closed_calls = c.closed_calls + 1;
}

core-ended : (env : Env) (s : RtcSession) → core (ended env s) ≡ over (core s)
core-ended env s =
    ap (λ (c : Core). record c { dtls_state = DtlsState.closed; closed_calls = c.closed_calls + 1 })
      (core-say_goodbye env (record s { state = RtcSessionState.closed }))

pub core-close :
    (env : Env) (s : RtcSession)
    → is_in s.state RtcSessionState.closed ≡ false
    → core (rtc_session_close env s) ≡ over (core s)
unfolding rtc_session_close
core-close env s h = ap core (close_open 1 env s h) ∙ core-ended env s

-- Closing a session ends: however many calls may be inside one another, one at least, the result is
-- that of `rtc_session_close`. It leaves a closed session as it is; an open one is closed with its
-- engine, keeps its peer, and the server is told once.
pub close_on_lem :
    (n : ℕ) (env : Env) (s : RtcSession)
    → (close_on (suc n) env s ≡ rtc_session_close env s)
      × (((s.state ≡ RtcSessionState.closed) × (rtc_session_close env s ≡ s))
          ⊎ ((s.state ≢ RtcSessionState.closed) × (core (rtc_session_close env s) ≡ over (core s))))
unfolding rtc_session_close
close_on_lem n env s = elim (Bool-cases (is_in s.state RtcSessionState.closed)) [
  | inl e ↦
      let done = is_in-eq s.state RtcSessionState.closed e in
      (
        closed_stays (suc n) env s done ∙ sym (closed_stays 2 env s done),
        inl (done, closed_stays 2 env s done),
      )
  | inr e ↦ (
    close_open n env s e ∙ sym (close_open 1 env s e),
    inr (
      is_in-ne s.state RtcSessionState.closed e,
      ap core (close_open 1 env s e) ∙ core-ended env s,
    ),
  )
]
