-- ===== src/WebRtc/Session/Authority.antt =====
-- Who may move the peer of a session in src/webrtc/webrtc_session.c.
use ideal_broccoli.Base.{
  ℕ, ◌+◌, ◌*◌, ◌%◌, ◌^◌, ◌≡◌, ◌⊎◌, refl, sym, ap, ◌∙◌, Bool, true, false, ◌&&◌, Bool-cases, inl,
  inr, Option, none, some, ◌>>=◌, Option-cases, List, leb, ◌==◌, if◌then◌else◌, length, get_or,
}
use ideal_broccoli.WebRtc.IceLite.{
  Peer, RtcPacketClass, rtc_classify_packet, stun_is_binding_request, stun_verify_mi,
  stun_username_matches, stun_build_binding_response,
}
use ideal_broccoli.WebRtc.Rtcp
use ideal_broccoli.WebRtc.Session.{RtcSession, RtcSessionState, Env, is_in, dtls_on_udp}
use ideal_broccoli.WebRtc.Session.Media.{on_rtcp}
use ideal_broccoli.WebRtc.Session.Datagram.{
  StunVerdict, judge, stun_send_error, send_to, follow, answer_check, on_verdict, on_stun, on_rtp,
  on_class, rtc_session_on_udp,
}
use ideal_broccoli.WebRtc.Session.Core.{Core}
use ideal_broccoli.WebRtc.Session.Steady.{core-stun_send_error}
use ideal_broccoli.WebRtc.Session.Follow.{core-follow}
use ideal_broccoli.WebRtc.Session.Peers.{
  Keeps, Keeps-if, Keeps-core, Keeps-dtls_on_udp, Keeps-feedback,
}

-- A check that this session's password signs, for its user name.
pub record IsAuthentic (env : Env) (buffer : List ℕ) (s : RtcSession) : Type 0 where
  pub tid : List ℕ
  pub request : stun_is_binding_request buffer ≡ some (some tid)
  pub signed : stun_verify_mi env.hmac buffer s.local_pwd ≡ some true
  pub named : stun_username_matches buffer s.local_ufrag ≡ some true

-- The verdict, from the three answers.
verdict_of : Option (Option (List ℕ)) → Option Bool → Option Bool → Option StunVerdict
verdict_of none verified matches = none
verdict_of (some none) verified matches = some StunVerdict.no_request
verdict_of (some (some tid)) none matches = none
verdict_of (some (some tid)) (some v) none = none
verdict_of (some (some tid)) (some v) (some m) =
    some (if v && m then StunVerdict.valid else StunVerdict.refused tid)

verdict_of_lem :
    (request : Option (Option (List ℕ))) (verified matches : Option Bool)
    → (do
      r ← request
      elim r [
        | none ↦ some StunVerdict.no_request
        | some tid ↦ do
          v ← verified
          m ← matches
          some (if v && m then StunVerdict.valid else StunVerdict.refused tid)
      ])
      ≡ verdict_of request verified matches
unfolding verdict_of
verdict_of_lem none v m = refl
verdict_of_lem (some none) v m = refl
verdict_of_lem (some (some tid)) none m = refl
verdict_of_lem (some (some tid)) (some v) none = refl
verdict_of_lem (some (some tid)) (some v) (some m) = refl

verdict_of-valid :
    (request : Option (Option (List ℕ))) (verified matches : Option Bool)
    → verdict_of request verified matches ≡ some StunVerdict.valid
    → (tid : List ℕ) × (request ≡ some (some tid)) × (verified ≡ some true) × (matches ≡ some true)
unfolding verdict_of
verdict_of-valid none v m h = cc h
verdict_of-valid (some none) v m h = cc h
verdict_of-valid (some (some tid)) none m h = cc h
verdict_of-valid (some (some tid)) (some v) none h = cc h
verdict_of-valid (some (some tid)) (some true) (some true) h = (tid, refl, refl, refl)
verdict_of-valid (some (some tid)) (some true) (some false) h = cc h
verdict_of-valid (some (some tid)) (some false) (some m) h = cc h

judge-valid :
    (env : Env) (buffer : List ℕ) (s : RtcSession)
    → judge env.hmac s.local_pwd s.local_ufrag buffer ≡ some StunVerdict.valid
    → IsAuthentic env buffer s
unfolding judge
judge-valid env buffer s h =
    let request_ = stun_is_binding_request buffer in
    let verified_ = stun_verify_mi env.hmac buffer s.local_pwd in
    let matches_ = stun_username_matches buffer s.local_ufrag in
    let (tid, request, signed, named) =
      verdict_of-valid request_ verified_ matches_
        (sym (verdict_of_lem request_ verified_ matches_) ∙ h) in
    record { tid = tid; request = request; signed = signed; named = named }

Keeps-received :
    (env : Env) (s : RtcSession) (packet : Option (List ℕ))
    → Keeps s (elim packet [ none ↦ s | some bytes ↦ on_rtcp env bytes s ])
unfolding on_rtcp
Keeps-received env s none = refl
Keeps-received env s (some bytes) = elim (Option-cases (Rtcp.parse bytes)) [
  | inl e ↦ simp (on_rtcp, e) refl
  | inr (fb, e) ↦ simp (on_rtcp, e) (Keeps-feedback env fb s)
]

Keeps-on_rtp : (env : Env) (buffer : List ℕ) (s : RtcSession) → Keeps s (on_rtp env buffer s)
unfolding on_rtp
Keeps-on_rtp env buffer s =
    let pt = get_or buffer 1 0 % 128 in
    let packet = if s.dtls.srtp_ready then env.unprotect_rtcp buffer else none in
    Keeps-if s (leb 64 pt && leb pt 95 && is_in s.state RtcSessionState.streaming)
      (elim packet [ none ↦ s | some bytes ↦ on_rtcp env bytes s ]) s (Keeps-received env s packet)
      refl

Keeps-from_peer :
    (env : Env) (buffer : List ℕ) (s : RtcSession) (remote : Option Peer)
    → Keeps s (elim remote [ none ↦ s | some peer ↦ dtls_on_udp env buffer s ])
Keeps-from_peer env buffer s none = refl
Keeps-from_peer env buffer s (some peer) = Keeps-dtls_on_udp env buffer s

-- A session follows the address of a check.
Follows : Env → List ℕ → Peer → RtcSession → RtcSession → Type 0
Follows env buffer source s t = Keeps s t ⊎ ((t.remote ≡ some source) × IsAuthentic env buffer s)

Follows-answer_check :
    (env : Env) (buffer : List ℕ) (source : Peer) (s t : RtcSession)
    → IsAuthentic env buffer s
    → Keeps s t
    → Follows env buffer source s (answer_check env buffer source t)
unfolding Follows answer_check send_to
Follows-answer_check env buffer source s t authentic keeps =
    let counted = record t {
      stats = record t.stats { stun_ok = (t.stats.stun_ok + 1) % 2 ^ 32 };
    } in
    let t' = follow source counted in
    let answered : (answer_check env buffer source t).remote ≡ t'.remote =
      elim (Option-cases (stun_build_binding_response env.hmac t.local_pwd buffer source 128)) [
        | inl e ↦
            simp (answer_check, e)
              (Keeps-if t' (is_in t'.state RtcSessionState.new)
                (record t' { state = RtcSessionState.ice }) t' refl refl)
        | inr (response, e) ↦
            simp (answer_check, e)
              (Keeps-if t' (is_in t'.state RtcSessionState.new)
                (record t' { state = RtcSessionState.ice }) t' refl refl)
      ] in
    elim (core-follow source counted) [
      | inl e ↦ inl (answered ∙ ap (λ (c : Core). c.remote) e ∙ keeps)
      | inr e ↦ inr (answered ∙ ap (λ (c : Core). c.remote) e, authentic)
    ]

Follows-verdict :
    (env : Env) (buffer : List ℕ) (source : Peer) (s t : RtcSession) (verdict : StunVerdict)
    → judge env.hmac s.local_pwd s.local_ufrag buffer ≡ some verdict
    → Keeps s t
    → Follows env buffer source s (on_verdict env buffer source verdict t)
unfolding Follows on_verdict
Follows-verdict env buffer source s t StunVerdict.no_request h keeps = inl (
    Keeps-if s (get_or buffer 0 0 * 256 + get_or buffer 1 0 == 0x0011 && leb 20 (length buffer))
      (record t { stats = record t.stats { stun_ok = (t.stats.stun_ok + 1) % 2 ^ 32 } }) t keeps
      keeps)
Follows-verdict env buffer source s t (StunVerdict.refused tid) h keeps =
    let t' = record t {
      stats = record t.stats { stun_bad_user = (t.stats.stun_bad_user + 1) % 2 ^ 32 };
    } in
    inl (
      Keeps-core t' (stun_send_error env tid 401 source t')
        (core-stun_send_error env tid 401 source t')
      ∙ keeps)
Follows-verdict env buffer source s t StunVerdict.valid h keeps =
    Follows-answer_check env buffer source s t (judge-valid env buffer s h) keeps

Follows-on_stun :
    (env : Env) (buffer : List ℕ) (source : Peer) (s t : RtcSession) (judged : Option StunVerdict)
    → judge env.hmac s.local_pwd s.local_ufrag buffer ≡ judged
    → Keeps s t
    → Follows env buffer source s
        (elim judged [ none ↦ t | some verdict ↦ on_verdict env buffer source verdict t ])
unfolding Follows
Follows-on_stun env buffer source s t none h keeps = inl keeps
Follows-on_stun env buffer source s t (some verdict) h keeps =
    Follows-verdict env buffer source s t verdict h keeps

Follows-on_class :
    (env : Env) (buffer : List ℕ) (source : Peer) (class : RtcPacketClass) (s : RtcSession)
    → Follows env buffer source s
        (on_class env buffer source class (record s { last_rx_ms = env.now }))
unfolding on_class on_stun Follows
Follows-on_class env buffer source RtcPacketClass.stun s =
    let s' = record s {
      last_rx_ms = env.now;
      stats = record s.stats { stun_rx = (s.stats.stun_rx + 1) % 2 ^ 32 };
    } in
    Follows-on_stun env buffer source s s' (judge env.hmac s.local_pwd s.local_ufrag buffer) refl
      refl
Follows-on_class env buffer source RtcPacketClass.dtls s =
    inl (Keeps-from_peer env buffer (record s { last_rx_ms = env.now }) s.remote)
Follows-on_class env buffer source RtcPacketClass.rtp s =
    inl (Keeps-on_rtp env buffer (record s { last_rx_ms = env.now }))
Follows-on_class env buffer source RtcPacketClass.other s = inl refl

-- No datagram moves the peer of a session, unless it is a binding request with the session's user
-- name and a MESSAGE-INTEGRITY that its password verifies; then the peer is where it came from.
pub on_udp-IsAuthentic :
    (env : Env) (buffer : List ℕ) (source : Peer) (s : RtcSession)
    → let s' = rtc_session_on_udp env buffer source s in
      (s'.remote ≡ s.remote) ⊎ ((s'.remote ≡ some source) × IsAuthentic env buffer s)
unfolding rtc_session_on_udp Follows
on_udp-IsAuthentic env buffer source s = elim (Bool-cases (is_in s.state RtcSessionState.closed)) [
  | inl e ↦ simp (rtc_session_on_udp, e) (inl refl)
  | inr e ↦
      simp (rtc_session_on_udp, e)
        (Follows-on_class env buffer source (rtc_classify_packet buffer) s)
]
