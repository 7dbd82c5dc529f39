-- ===== src/WebRtc/Session/Ending.antt =====
-- How the life of a session ends in src/webrtc/webrtc_session.c and src/webrtc/dtls_srtp.c.
use ideal_broccoli.Base.{
  ◌+◌, ◌≡◌, ◌⊎◌, refl, sym, ap, subst, ◌∙◌, Bool, false, inl, inr, Option, ℕ, List,
}
use ideal_broccoli.WebRtc.IceLite.{Peer}
use ideal_broccoli.WebRtc.Dtls.{DtlsState, same_state}
use ideal_broccoli.WebRtc.Session.{
  RtcSession, RtcSessionState, Env, is_in, dtls_set_state, on_state, registered, rtc_session_close,
}
use ideal_broccoli.WebRtc.Session.Core.{Core, core}
use ideal_broccoli.WebRtc.Session.Closing.{core-close, over, closed_stays}
use ideal_broccoli.WebRtc.Session.Life.{Life, LifeStep, LifeSteps, Stands, At, Lives, stays}

-- What every place but the last has in common.
pub record Alive (offer : List ℕ) (c : Core) : Type 0 where
  pub not_closed : is_in c.state RtcSessionState.closed ≡ false
  pub not_failed : same_state c.dtls_state DtlsState.failed ≡ false
  pub not_ended : same_state c.dtls_state DtlsState.closed ≡ false
  pub no_calls : c.closed_calls ≡ 0
  pub expects : c.expected ≡ offer

module _ (offer : List ℕ) where
  pub Stands-Alive :
      {state : RtcSessionState} {dtls_state : DtlsState} {remote : Option Peer}
      {started ready : Bool} (c : Core)
      → Stands offer state dtls_state remote started ready 0 c
      → is_in state RtcSessionState.closed ≡ false
      → same_state dtls_state DtlsState.failed ≡ false
      → same_state dtls_state DtlsState.closed ≡ false
      → Alive offer c
  Stands-Alive c at a b d = record {
    not_closed = ap (λ x. is_in x RtcSessionState.closed) at.state_eq ∙ a;
    not_failed = ap (λ x. same_state x DtlsState.failed) at.dtls_eq ∙ b;
    not_ended = ap (λ x. same_state x DtlsState.closed) at.dtls_eq ∙ d;
    no_calls = at.calls_eq;
    expects = at.expected_eq;
  }

  pub At-Alive :
      (l : Life) (c : Core) → At offer l c → Alive offer c ⊎ (c.state ≡ RtcSessionState.closed)
  At-Alive Life.fresh c at = inl (Stands-Alive c at refl refl refl)
  At-Alive (Life.checked p) c at = inl (Stands-Alive c at refl refl refl)
  At-Alive (Life.greeting p) c at = inl (Stands-Alive c at refl refl refl)
  At-Alive (Life.streaming p digest) c at = inl (Stands-Alive c at.0 refl refl refl)
  At-Alive Life.over c at = inr at.0

  -- The end of a life.
  pub ends :
      {env : Env} (l : Life) (c c' : Core) → Alive offer c → c' ≡ over c → Lives offer env l c'
  ends l c c' alive e = Lives.lives Life.over (LifeSteps.step LifeSteps.stay (LifeStep.close l)) (
      subst (At offer Life.over) (sym e)
        (refl, refl, ap (λ n. n + 1) alive.no_calls, alive.expects))

  pub close_lives :
      (l : Life) (env : Env) (s : RtcSession)
      → At offer l (core s)
      → Lives offer env l (core (rtc_session_close env s))
  unfolding rtc_session_close
  close_lives l env s at = elim (At-Alive l (core s) at) [
    | inl alive ↦
        ends l (core s) (core (rtc_session_close env s)) alive (core-close env s alive.not_closed)
    | inr e ↦
        stays l (core s) (core (rtc_session_close env s)) (ap core (closed_stays 2 env s e)) at
  ]

  -- A state of the engine that ends the session.
  pub fails :
      (l : Life) (env : Env) (s : RtcSession)
      → Alive offer (core s)
      → Lives offer env l (core (dtls_set_state (registered env) DtlsState.failed s))
  unfolding dtls_set_state on_state
  fails l env s alive =
      ends l (core s) (core (dtls_set_state (registered env) DtlsState.failed s)) alive (
        rw (dtls_set_state, alive.not_failed)
          (core-close env (record s { dtls = record s.dtls { state = DtlsState.failed } })
            alive.not_closed))

  pub hangs_up :
      (l : Life) (env : Env) (s : RtcSession)
      → Alive offer (core s)
      → Lives offer env l (core (dtls_set_state (registered env) DtlsState.closed s))
  unfolding dtls_set_state on_state
  hangs_up l env s alive =
      ends l (core s) (core (dtls_set_state (registered env) DtlsState.closed s)) alive (
        rw (dtls_set_state, alive.not_ended)
          (core-close env (record s { dtls = record s.dtls { state = DtlsState.closed } })
            alive.not_closed))
