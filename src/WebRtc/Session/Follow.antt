-- ===== src/WebRtc/Session/Follow.antt =====
-- A valid connectivity check in src/webrtc/webrtc_session.c as a step of the session's life.
use ideal_broccoli.Base.{
  ℕ, ◌+◌, ◌%◌, ◌^◌, ◌≡◌, ◌⊎◌, refl, sym, ap, subst, ◌∙◌, Bool, true, false, Bool-cases, inl, inr,
  Option, some, Option-cases, List, if◌then◌else◌,
}
use ideal_broccoli.WebRtc.IceLite.{Peer, stun_build_binding_response}
use ideal_broccoli.WebRtc.Dtls.{DtlsState}
use ideal_broccoli.WebRtc.Session.{RtcSession, RtcSessionState, Env, is_in}
use ideal_broccoli.WebRtc.Session.Datagram.{send_to, has_moved, follow, answer_check}
use ideal_broccoli.WebRtc.Session.Core.{Core, core}
use ideal_broccoli.WebRtc.Session.Life.{Life, LifeStep, LifeSteps, Stands, At, Lives, stays}
use ideal_broccoli.WebRtc.Session.Handshake.{Met}

-- A check from elsewhere moves the peer.
abbrev pub relocate : Core → Peer → Core
relocate c q = record c { remote = some q }

pub core-follow :
    (source : Peer) (s : RtcSession)
    → (core (follow source s) ≡ core s) ⊎ (core (follow source s) ≡ relocate (core s) source)
unfolding follow
core-follow source s = elim (Option-cases s.remote) [
  | inl e ↦ inr (simp (follow, e) refl)
  | inr (peer, e) ↦ elim (Bool-cases (has_moved source peer)) [
    | inl m ↦ inr (simp (follow, e, m) refl)
    | inr m ↦ inl (simp (follow, e, m) refl)
  ]
]

-- The session that answers a valid check, before the answer.
abbrev checked_by : Peer → RtcSession → RtcSession
checked_by source s =
    let s' = follow source s in
    if is_in s'.state RtcSessionState.new then record s' { state = RtcSessionState.ice } else s'

state-follow : (source : Peer) (s : RtcSession) → (follow source s).state ≡ s.state
state-follow source s = elim (core-follow source s) [
  | inl e ↦ ap (λ (c : Core). c.state) e
  | inr e ↦ ap (λ (c : Core). c.state) e
]

-- A session that is open has a peer, or waits for one.
pub data Open : Life → Type 0 where
  waiting : Open Life.fresh
  with_peer : {l : Life} → Met l → Open l

pub Life-cases : (l : Life) → Open l ⊎ (l ≡ Life.over)
Life-cases Life.fresh = inl Open.waiting
Life-cases (Life.checked p) = inl (Open.with_peer (Met.in_checked p))
Life-cases (Life.greeting p) = inl (Open.with_peer (Met.in_greeting p))
Life-cases (Life.streaming p digest) = inl (Open.with_peer (Met.in_streaming p digest))
Life-cases Life.over = inr refl

module _ (offer : List ℕ) where
  pub Lives-same :
      {env : Env} (l : Life) (c c' : Core) → c' ≡ c → Lives offer env l c → Lives offer env l c'
  Lives-same l c c' e r = subst (Lives offer _ l) (sym e) r

  Stands-relocate :
      {state : RtcSessionState} {dtls_state : DtlsState} {remote : Option Peer}
      {started ready : Bool} (c : Core) (q : Peer)
      → Stands offer state dtls_state remote started ready 0 c
      → Stands offer state dtls_state (some q) started ready 0 (relocate c q)
  Stands-relocate c q at = record {
    state_eq = at.state_eq;
    dtls_eq = at.dtls_eq;
    remote_eq = refl;
    started_eq = at.started_eq;
    ready_eq = at.ready_eq;
    calls_eq = at.calls_eq;
    expected_eq = at.expected_eq;
  }

  Lives-relocate :
      {env : Env} (l : Life) (c : Core) (q : Peer)
      → Met l
      → At offer l c
      → Lives offer env l (relocate c q)
  Lives-relocate l c q (Met.in_checked p) at =
      Lives.lives (Life.checked q) (LifeSteps.step LifeSteps.stay (LifeStep.move_checked p q))
        (Stands-relocate c q at)
  Lives-relocate l c q (Met.in_greeting p) at =
      Lives.lives (Life.greeting q) (LifeSteps.step LifeSteps.stay (LifeStep.move_greeting p q))
        (Stands-relocate c q at)
  Lives-relocate l c q (Met.in_streaming p digest) at =
      Lives.lives (Life.streaming q digest)
        (LifeSteps.step LifeSteps.stay (LifeStep.move_streaming p q digest))
        (Stands-relocate c q at.0, at.1)

  Met-old : (l : Life) (c : Core) → Met l → At offer l c → is_in c.state RtcSessionState.new ≡ false
  Met-old l c (Met.in_checked p) at = ap (λ x. is_in x RtcSessionState.new) at.state_eq
  Met-old l c (Met.in_greeting p) at = ap (λ x. is_in x RtcSessionState.new) at.state_eq
  Met-old l c (Met.in_streaming p digest) at = ap (λ x. is_in x RtcSessionState.new) at.0.state_eq

  checked_by-met :
      {env : Env} (l : Life) (source : Peer) (s : RtcSession)
      → Met l
      → At offer l (core s)
      → Lives offer env l (core (checked_by source s))
  checked_by-met l source s met at =
      let old : is_in (follow source s).state RtcSessionState.new ≡ false =
        ap (λ x. is_in x RtcSessionState.new) (state-follow source s) ∙ Met-old l (core s) met at in
      let same : core (checked_by source s) ≡ core (follow source s) = simp old refl in
      Lives-same l (core (follow source s)) (core (checked_by source s)) same
        (elim (core-follow source s) [
          | inl e ↦ stays l (core s) (core (follow source s)) e at
          | inr e ↦
              Lives-same l (relocate (core s) source) (core (follow source s)) e
                (Lives-relocate l (core s) source met at)
        ])

  checked_by-fresh :
      {env : Env} (source : Peer) (s : RtcSession)
      → At offer Life.fresh (core s)
      → Lives offer env Life.fresh (core (checked_by source s))
  unfolding follow
  checked_by-fresh source s at =
      let is_new : is_in s.state RtcSessionState.new ≡ true =
        ap (λ x. is_in x RtcSessionState.new) at.state_eq in
      let target : Core = record (core s) { state = RtcSessionState.ice; remote = some source } in
      let same : core (checked_by source s) ≡ target = simp (follow, at.remote_eq, is_new) refl in
      Lives.lives (Life.checked source) (LifeSteps.step LifeSteps.stay (LifeStep.check source)) (
        subst (At offer (Life.checked source)) (sym same) (record {
          state_eq = refl;
          dtls_eq = at.dtls_eq;
          remote_eq = refl;
          started_eq = at.started_eq;
          ready_eq = at.ready_eq;
          calls_eq = at.calls_eq;
          expected_eq = at.expected_eq;
        }))

  -- A valid check in an open session.
  open_check :
      {env : Env} (l : Life) (source : Peer) (s : RtcSession)
      → Open l
      → At offer l (core s)
      → Lives offer env l (core (checked_by source s))
  open_check l source s Open.waiting at = checked_by-fresh source s at
  open_check l source s (Open.with_peer met) at = checked_by-met l source s met at

  pub answer_check_lives :
      (l : Life) (env : Env) (buffer : List ℕ) (source : Peer) (s : RtcSession)
      → Open l
      → At offer l (core s)
      → Lives offer env l (core (answer_check env buffer source s))
  unfolding answer_check send_to
  answer_check_lives l env buffer source s open_ at =
      let s' = record s { stats = record s.stats { stun_ok = (s.stats.stun_ok + 1) % 2 ^ 32 } } in
      Lives-same l (core (checked_by source s')) (core (answer_check env buffer source s))
        (elim (Option-cases (stun_build_binding_response env.hmac s.local_pwd buffer source 128)) [
          | inl e ↦ simp (answer_check, e) refl
          | inr (response, e) ↦ simp (answer_check, e) refl
        ])
        (open_check l source s' open_ at)

  pub Lives-if :
      {env : Env} (l : Life) (b : Bool) (x y : RtcSession)
      → Lives offer env l (core x)
      → Lives offer env l (core y)
      → Lives offer env l (core (if b then x else y))
  Lives-if l true x y p q = p
  Lives-if l false x y p q = q
