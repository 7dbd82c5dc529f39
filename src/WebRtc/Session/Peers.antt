-- ===== src/WebRtc/Session/Peers.antt =====
-- The functions that leave the peer of a session in src/webrtc/webrtc_session.c alone.
use ideal_broccoli.Base.{
  ℕ, ◌+◌, ◌%◌, ◌^◌, ◌≡◌, refl, ap, ◌∙◌, Bool, true, false, not, ◌&&◌, ◌||◌, Bool-cases, inl, inr,
  List, ltb, if◌then◌else◌, length,
}
use ideal_broccoli.WebRtc.Rtcp.{RtcpFeedback}
use ideal_broccoli.WebRtc.Dtls.{DtlsState, same_state, derive_srtp_keys, enqueue}
use ideal_broccoli.WebRtc.Session.{
  RtcSession, RtcSessionState, Env, SslOutcome, ssl_call, dtls_set_state, on_state, registered,
  rtc_session_close, on_connected, rtc_session_request_idr, start_handshake, continue_handshake,
  connect, finish_pump, pump_ssl, dtls_on_udp,
}
use ideal_broccoli.WebRtc.Session.Media.{retransmit_all, on_feedback}
use ideal_broccoli.WebRtc.Session.Core.{Core, core, core-ssl_call, core-request_idr}
use ideal_broccoli.WebRtc.Session.Closing.{close_on_lem}
use ideal_broccoli.WebRtc.Session.Steady.{core-retransmit_all}

-- The peer is still the same.
abbrev pub Keeps : RtcSession → RtcSession → Type 0
Keeps s t = t.remote ≡ s.remote

pub Keeps-core : (s t : RtcSession) → core t ≡ core s → Keeps s t
Keeps-core s t e = ap (λ (c : Core). c.remote) e

pub Keeps-if :
    (s : RtcSession) (b : Bool) (x y : RtcSession)
    → Keeps s x
    → Keeps s y
    → Keeps s (if b then x else y)
Keeps-if s true x y p q = p
Keeps-if s false x y p q = q

Keeps-close : (env : Env) (s : RtcSession) → Keeps s (rtc_session_close env s)
Keeps-close env s = elim (close_on_lem 1 env s).1 [
  | inl (c, same) ↦ ap (λ (t : RtcSession). t.remote) same
  | inr (c, gone) ↦ ap (λ (c : Core). c.remote) gone
]

Keeps-on_state : (env : Env) (state : DtlsState) (s : RtcSession) → Keeps s (registered env state s)
unfolding on_state
Keeps-on_state env DtlsState.init s = refl
Keeps-on_state env DtlsState.handshaking s = refl
Keeps-on_state env DtlsState.connected s = refl
Keeps-on_state env DtlsState.failed s = Keeps-close env s
Keeps-on_state env DtlsState.closed s = Keeps-close env s

Keeps-set_state :
    (env : Env) (state : DtlsState) (s : RtcSession)
    → Keeps s (dtls_set_state (registered env) state s)
unfolding dtls_set_state
Keeps-set_state env state s =
    let s' = record s { dtls = record s.dtls { state = state } } in
    Keeps-if s (same_state s.dtls.state state) s (registered env state s') refl
      (Keeps-on_state env state s')

Keeps-ssl_call : (call : _) (s : RtcSession) → Keeps s (ssl_call call s)
Keeps-ssl_call call s = Keeps-core s (ssl_call call s) (core-ssl_call call s)

Keeps-connect : (env : Env) (s : RtcSession) → Keeps s (connect env s)
unfolding connect on_connected
Keeps-connect env s =
    let s' = record s { dtls = (derive_srtp_keys env.derivation s.dtls).0 } in
    let t = dtls_set_state (registered env) DtlsState.connected s' in
    Keeps-if s (derive_srtp_keys env.derivation s.dtls).1 (on_connected env t)
      (dtls_set_state (registered env) DtlsState.failed s')
      (Keeps-core (record t { state = RtcSessionState.streaming })
          (rtc_session_request_idr env (record t { state = RtcSessionState.streaming }))
          (core-request_idr env (record t { state = RtcSessionState.streaming }))
        ∙ Keeps-set_state env DtlsState.connected s')
      (Keeps-set_state env DtlsState.failed s')

Keeps-finish :
    (env : Env) (s : RtcSession) (goes_on : Bool) → Keeps s (finish_pump env (s, goes_on))
unfolding finish_pump
Keeps-finish env s goes_on =
    Keeps-if s (goes_on && (not s.dtls.srtp_ready && env.finished)) (connect env s) s
      (Keeps-connect env s) refl

Keeps-outcome :
    (env : Env) (s done again error eof : RtcSession) (o : SslOutcome)
    → Keeps s done
    → Keeps s again
    → Keeps s error
    → Keeps s eof
    → Keeps s (
        finish_pump env (elim o [
          | SslOutcome.done ↦ (done, true)
          | SslOutcome.again ↦ (again, true)
          | SslOutcome.error ↦ (error, false)
          | SslOutcome.eof ↦ (eof, false)
        ]))
Keeps-outcome env s a b c d SslOutcome.done p q r t = Keeps-finish env a true ∙ p
Keeps-outcome env s a b c d SslOutcome.again p q r t = Keeps-finish env b true ∙ q
Keeps-outcome env s a b c d SslOutcome.error p q r t = Keeps-finish env c false ∙ r
Keeps-outcome env s a b c d SslOutcome.eof p q r t = Keeps-finish env d false ∙ t

Keeps-start : (env : Env) (s : RtcSession) → Keeps s (finish_pump env (start_handshake env s))
unfolding start_handshake
Keeps-start env s =
    let begun = record s { dtls = record s.dtls { handshake_started = true } } in
    let greeted = dtls_set_state (registered env) DtlsState.handshaking begun in
    let s' = ssl_call env.accept greeted in
    let failed = dtls_set_state (registered env) DtlsState.failed s' in
    let same : Keeps s s' =
      Keeps-ssl_call env.accept greeted ∙ Keeps-set_state env DtlsState.handshaking begun in
    let same_failed : Keeps s failed = Keeps-set_state env DtlsState.failed s' ∙ same in
    Keeps-outcome env s s' s' failed failed env.accept.outcome same same same_failed same_failed

Keeps-continue : (env : Env) (s : RtcSession) → Keeps s (finish_pump env (continue_handshake env s))
unfolding continue_handshake
Keeps-continue env s =
    let s' = ssl_call env.read s in
    let failed = dtls_set_state (registered env) DtlsState.failed s' in
    let closed = dtls_set_state (registered env) DtlsState.closed s' in
    let same = Keeps-ssl_call env.read s in
    Keeps-outcome env s s' s' failed closed env.read.outcome same same
      (Keeps-set_state env DtlsState.failed s' ∙ same)
      (Keeps-set_state env DtlsState.closed s' ∙ same)

Keeps-pump : (env : Env) (s : RtcSession) → Keeps s (pump_ssl env s)
unfolding pump_ssl
Keeps-pump env s = elim (Bool-cases s.dtls.handshake_started) [
  | inl e ↦
      Keeps-if s
        (same_state s.dtls.state DtlsState.closed || same_state s.dtls.state DtlsState.failed) s
        (finish_pump env
          (if s.dtls.handshake_started then continue_handshake env s else start_handshake env s))
        refl (simp e (Keeps-continue env s))
  | inr e ↦
      Keeps-if s
        (same_state s.dtls.state DtlsState.closed || same_state s.dtls.state DtlsState.failed) s
        (finish_pump env
          (if s.dtls.handshake_started then continue_handshake env s else start_handshake env s))
        refl (simp e (Keeps-start env s))
]

pub Keeps-dtls_on_udp :
    (env : Env) (packet : List ℕ) (s : RtcSession) → Keeps s (dtls_on_udp env packet s)
unfolding dtls_on_udp
Keeps-dtls_on_udp env packet s =
    let s' = record s { dtls = enqueue env.allocated packet s.dtls } in
    Keeps-if s (same_state s.dtls.state DtlsState.failed) s
      (if env.allocated then pump_ssl env s' else s') refl
      (Keeps-if s env.allocated (pump_ssl env s') s' (Keeps-pump env s') refl)

pub Keeps-feedback :
    (env : Env) (fb : RtcpFeedback) (s : RtcSession) → Keeps s (on_feedback env fb s)
unfolding on_feedback
Keeps-feedback env fb s =
    let counted = record s {
      stats = record s.stats { pli_received = (s.stats.pli_received + fb.pli + fb.fir) % 2 ^ 32 };
    } in
    let asked = rtc_session_request_idr env counted in
    let s' = if ltb 0 fb.pli || ltb 0 fb.fir then asked else s in
    let nacked = record s' {
      stats = record s'.stats {
        nacks_received = (s'.stats.nacks_received + length fb.nack_seq) % 2 ^ 32;
      };
    } in
    let same : Keeps s s' =
      Keeps-if s (ltb 0 fb.pli || ltb 0 fb.fir) asked s
        (Keeps-core counted asked (core-request_idr env counted)) refl in
    let resent = retransmit_all fb.nack_seq nacked in
    Keeps-if s fb.bye (rtc_session_close env s) (if ltb 0 (length fb.nack_seq) then resent else s')
      (Keeps-close env s)
      (Keeps-if s (ltb 0 (length fb.nack_seq)) resent s'
        (Keeps-core nacked resent (core-retransmit_all fb.nack_seq nacked) ∙ same) same)
