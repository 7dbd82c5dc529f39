-- ===== src/WebRtc/Session/Lifecycle.antt =====
-- Every call of src/webrtc/webrtc_session.c's functions as steps of a session's life.
use ideal_broccoli.Base.{
  ℕ, ◌+◌, ◌-◌, ◌*◌, ◌%◌, ◌^◌, ◌≡◌, refl, sym, ap, subst, ◌∙◌, Bool, true, false, ◌&&◌, ◌||◌,
  Bool-cases, inl, inr, Option, none, some, Option-cases, List, ltb, leb, ◌==◌, if◌then◌else◌,
  length, get_or,
}
use ideal_broccoli.WebRtc.IceLite.{Peer, RtcPacketClass, rtc_classify_packet}
use ideal_broccoli.WebRtc.Rtcp
use ideal_broccoli.WebRtc.Rtcp.{RtcpFeedback}
use ideal_broccoli.WebRtc.Dtls.{DtlsState, same_state, enqueue}
use ideal_broccoli.WebRtc.Session.{
  RtcSession, RtcSessionState, Env, is_in, write_all, rtc_session_close, rtc_session_request_idr,
  pump_ssl, dtls_on_udp, dtls_tick,
}
use ideal_broccoli.WebRtc.Session.Media.{
  retransmit_all, on_feedback, on_rtcp, send_report, rtc_session_tick,
}
use ideal_broccoli.WebRtc.Session.Datagram.{
  StunVerdict, judge, stun_send_error, on_verdict, on_stun, on_rtp, on_class, rtc_session_on_udp,
}
use ideal_broccoli.WebRtc.Session.Core.{
  Core, core, with_engine, quiet-enqueue, core-write_all, core-request_idr,
}
use ideal_broccoli.WebRtc.Session.Life.{Life, At, Lives, stays}
use ideal_broccoli.WebRtc.Session.Ending.{close_lives}
use ideal_broccoli.WebRtc.Session.Handshake.{Met, Met-Alive, handshaking-Met, pump_lives}
use ideal_broccoli.WebRtc.Session.Steady.{
  core-retransmit_all, core-send_report, core-stun_send_error,
}
use ideal_broccoli.WebRtc.Session.Follow.{
  Lives-same, Lives-if, Open, Life-cases, answer_check_lives,
}

core-if : (b : Bool) (x y : RtcSession) → core x ≡ core y → core (if b then x else y) ≡ core y
core-if true x y e = e
core-if false x y e = refl

module _ (offer : List ℕ) where
  dtls_on_udp_lives :
      (l : Life) (env : Env) (packet : List ℕ) (s : RtcSession)
      → Met l
      → At offer l (core s)
      → Lives offer env l (core (dtls_on_udp env packet s))
  unfolding dtls_on_udp
  dtls_on_udp_lives l env packet s met at =
      let s' = record s { dtls = enqueue env.allocated packet s.dtls } in
      let same : core s' ≡ core s =
        ap (with_engine s) (quiet-enqueue env.allocated packet s.dtls) in
      let at' : At offer l (core s') = subst (At offer l) (sym same) at in
      let alive = Met-Alive offer l (core s) met at in
      simp (dtls_on_udp, alive.not_failed)
        (Lives-if offer l env.allocated (pump_ssl env s') s' (pump_lives offer l env s' met at')
          (stays l (core s') (core s') refl at'))

  dtls_tick_lives :
      (l : Life) (env : Env) (s : RtcSession)
      → At offer l (core s)
      → Lives offer env l (core (dtls_tick env s))
  unfolding dtls_tick
  dtls_tick_lives l env s at =
      let s' = write_all env.timeout_writes s in
      elim (Bool-cases (same_state s.dtls.state DtlsState.handshaking)) [
        | inr e ↦ simp (dtls_tick, e) (stays l (core s) (core s) refl at)
        | inl e ↦
            simp (dtls_tick, e)
              (pump_lives offer l env s' (handshaking-Met offer l (core s) at e)
                (subst (At offer l) (sym (core-write_all env.timeout_writes s)) at))
      ]

  on_feedback_lives :
      (l : Life) (env : Env) (fb : RtcpFeedback) (s : RtcSession)
      → At offer l (core s)
      → Lives offer env l (core (on_feedback env fb s))
  unfolding on_feedback
  on_feedback_lives l env fb s at =
      let asked = rtc_session_request_idr env (record s {
        stats = record s.stats { pli_received = (s.stats.pli_received + fb.pli + fb.fir) % 2 ^ 32 };
      }) in
      let s' = if ltb 0 fb.pli || ltb 0 fb.fir then asked else s in
      let same : core s' ≡ core s = core-if (ltb 0 fb.pli || ltb 0 fb.fir) asked s (
        core-request_idr env (record s {
          stats = record s.stats {
            pli_received = (s.stats.pli_received + fb.pli + fb.fir) % 2 ^ 32;
          };
        })) in
      let counted = record s' {
        stats = record s'.stats {
          nacks_received = (s'.stats.nacks_received + length fb.nack_seq) % 2 ^ 32;
        };
      } in
      elim (Bool-cases fb.bye) [
        | inl e ↦ simp (on_feedback, e) (close_lives offer l env s at)
        | inr e ↦ elim (Bool-cases (ltb 0 (length fb.nack_seq))) [
          | inl f ↦
              simp (on_feedback, e, f)
                (stays l (core s) (core (retransmit_all fb.nack_seq counted))
                  (core-retransmit_all fb.nack_seq counted ∙ same) at)
          | inr f ↦ simp (on_feedback, e, f) (stays l (core s) (core s') same at)
        ]
      ]

  on_rtp_lives :
      (l : Life) (env : Env) (buffer : List ℕ) (s : RtcSession)
      → At offer l (core s)
      → Lives offer env l (core (on_rtp env buffer s))
  unfolding on_rtp on_rtcp
  on_rtp_lives l env buffer s at =
      let pt = get_or buffer 1 0 % 128 in
      let here : Lives offer env l (core s) = stays l (core s) (core s) refl at in
      elim (Bool-cases (leb 64 pt && leb pt 95 && is_in s.state RtcSessionState.streaming)) [
        | inr e ↦ simp (on_rtp, e) here
        | inl e ↦
            elim (Option-cases (if s.dtls.srtp_ready then env.unprotect_rtcp buffer else none)) [
              | inl f ↦ simp (on_rtp, e, f) here
              | inr (packet, f) ↦ elim (Option-cases (Rtcp.parse packet)) [
                | inl g ↦ simp (on_rtp, e, f, on_rtcp, g) here
                | inr (fb, g) ↦ simp (on_rtp, e, f, on_rtcp, g) (on_feedback_lives l env fb s at)
              ]
            ]
      ]

  on_verdict_lives :
      (l : Life) (env : Env) (buffer : List ℕ) (source : Peer) (verdict : StunVerdict)
      (s : RtcSession)
      → Open l
      → At offer l (core s)
      → Lives offer env l (core (on_verdict env buffer source verdict s))
  unfolding on_verdict
  on_verdict_lives l env buffer source StunVerdict.no_request s open_ at =
      Lives-if offer l
        (get_or buffer 0 0 * 256 + get_or buffer 1 0 == 0x0011 && leb 20 (length buffer))
        (record s { stats = record s.stats { stun_ok = (s.stats.stun_ok + 1) % 2 ^ 32 } }) s
        (stays l (core s) (core s) refl at) (stays l (core s) (core s) refl at)
  on_verdict_lives l env buffer source (StunVerdict.refused tid) s open_ at =
      let s' = record s {
        stats = record s.stats { stun_bad_user = (s.stats.stun_bad_user + 1) % 2 ^ 32 };
      } in
      stays l (core s) (core (stun_send_error env tid 401 source s'))
        (core-stun_send_error env tid 401 source s') at
  on_verdict_lives l env buffer source StunVerdict.valid s open_ at =
      answer_check_lives offer l env buffer source s open_ at

  on_stun_lives :
      (l : Life) (env : Env) (buffer : List ℕ) (source : Peer) (s : RtcSession)
      → Open l
      → At offer l (core s)
      → Lives offer env l (core (on_stun env buffer source s))
  unfolding on_stun
  on_stun_lives l env buffer source s open_ at =
      let s' = record s { stats = record s.stats { stun_rx = (s.stats.stun_rx + 1) % 2 ^ 32 } } in
      elim (Option-cases (judge env.hmac s.local_pwd s.local_ufrag buffer)) [
        | inl e ↦ simp (on_stun, e) (stays l (core s) (core s') refl at)
        | inr (verdict, e) ↦
            simp (on_stun, e) (on_verdict_lives l env buffer source verdict s' open_ at)
      ]

  -- A session that waits for its first check has no peer.
  Open-Met :
      (l : Life) (c : Core) (peer : Peer) → Open l → At offer l c → c.remote ≡ some peer → Met l
  Open-Met l c peer (Open.with_peer met) at e = met
  Open-Met l c peer Open.waiting at e = cc (at.remote_eq, e)

  from_peer :
      (l : Life) (env : Env) (buffer : List ℕ) (s : RtcSession) (remote : Option Peer)
      → Open l
      → At offer l (core s)
      → s.remote ≡ remote
      → Lives offer env l (core (elim remote [ none ↦ s | some peer ↦ dtls_on_udp env buffer s ]))
  from_peer l env buffer s none open_ at e = stays l (core s) (core s) refl at
  from_peer l env buffer s (some peer) open_ at e =
      dtls_on_udp_lives l env buffer s (Open-Met l (core s) peer open_ at e) at

  on_class_lives :
      (l : Life) (env : Env) (buffer : List ℕ) (source : Peer) (class : RtcPacketClass)
      (s : RtcSession)
      → Open l
      → At offer l (core s)
      → Lives offer env l (core (on_class env buffer source class s))
  unfolding on_class
  on_class_lives l env buffer source RtcPacketClass.stun s open_ at =
      on_stun_lives l env buffer source s open_ at
  on_class_lives l env buffer source RtcPacketClass.dtls s open_ at =
      from_peer l env buffer s s.remote open_ at refl
  on_class_lives l env buffer source RtcPacketClass.rtp s open_ at = on_rtp_lives l env buffer s at
  on_class_lives l env buffer source RtcPacketClass.other s open_ at =
      stays l (core s) (core s) refl at

  pub rtc_session_on_udp_lives :
      (l : Life) (env : Env) (buffer : List ℕ) (source : Peer) (s : RtcSession)
      → At offer l (core s)
      → Lives offer env l (core (rtc_session_on_udp env buffer source s))
  unfolding rtc_session_on_udp
  rtc_session_on_udp_lives l env buffer source s at = elim (Life-cases l) [
    | inl open_ ↦
        Lives-if offer l (is_in s.state RtcSessionState.closed) s
          (on_class env buffer source (rtc_classify_packet buffer)
            (record s { last_rx_ms = env.now }))
          (stays l (core s) (core s) refl at)
          (on_class_lives l env buffer source (rtc_classify_packet buffer)
            (record s { last_rx_ms = env.now }) open_ at)
    | inr e ↦
        let done : s.state ≡ RtcSessionState.closed = (subst (λ x. At offer x (core s)) e at).0 in
        let test : is_in s.state RtcSessionState.closed ≡ true =
          ap (λ x. is_in x RtcSessionState.closed) done in
        simp (rtc_session_on_udp, test) (stays l (core s) (core s) refl at)
  ]

  pub rtc_session_tick_lives :
      (l : Life) (env : Env) (s : RtcSession)
      → At offer l (core s)
      → Lives offer env l (core (rtc_session_tick env s))
  unfolding rtc_session_tick
  rtc_session_tick_lives l env s at =
      let s' = dtls_tick env s in
      let ticked : Lives offer env l (core s') = dtls_tick_lives l env s at in
      let closed_now : Lives offer env l (core (rtc_session_close env s)) =
        close_lives offer l env s at in
      let reported : Lives offer env l (core (send_report env s')) =
        Lives-same offer l (core s') (core (send_report env s')) (core-send_report env s') ticked in
      let last =
        if is_in s'.state RtcSessionState.streaming && leb s'.next_sr_ms env.now
        then send_report env s'
        else s' in
      let watched =
        if is_in s.state RtcSessionState.ice && ltb 30000 (env.now - s.created_ms)
        then rtc_session_close env s
        else last in
      let open_ = if ltb 15000 (env.now - s.last_rx_ms) then rtc_session_close env s else watched in
      Lives-if offer l (is_in s.state RtcSessionState.closed) s open_
        (stays l (core s) (core s) refl at)
        (Lives-if offer l (ltb 15000 (env.now - s.last_rx_ms)) (rtc_session_close env s) watched
          closed_now
          (Lives-if offer l
            (is_in s.state RtcSessionState.ice && ltb 30000 (env.now - s.created_ms))
            (rtc_session_close env s) last closed_now
            (Lives-if offer l
              (is_in s'.state RtcSessionState.streaming && leb s'.next_sr_ms env.now)
              (send_report env s') s' reported ticked)))
