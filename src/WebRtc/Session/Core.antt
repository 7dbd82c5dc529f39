-- ===== src/WebRtc/Session/Core.antt =====
-- The part of a session on which its life depends, and which functions leave it alone.
use ideal_broccoli.Base.{
  ℕ, ◌≡◌, refl, ap, ◌∙◌, Bool, true, false, not, ◌&&◌, Bool-cases, inl, inr, Option, Option-cases,
  List, [], ◌∷◌, ltb, leb, ◌==◌, length, get_or,
}
use ideal_broccoli.WebRtc.IceLite.{Peer}
use ideal_broccoli.WebRtc.Dtls.{DtlsState, DtlsSrtp, bio_rx_read, enqueue}
use ideal_broccoli.WebRtc.Session.{
  RtcSession, RtcSessionState, Env, SslCall, send_udp, write_all, read_all, ssl_call,
  rtc_session_request_idr, idr_min_interval_ms, since,
}

pub record Core : Type 0 where
  pub state : RtcSessionState
  pub remote : Option Peer
  pub dtls_state : DtlsState
  pub started : Bool
  pub ready : Bool
  pub expected : List ℕ
  pub closed_calls : ℕ

abbrev pub core : RtcSession → Core
core s = record {
  state = s.state;
  remote = s.remote;
  dtls_state = s.dtls.state;
  started = s.dtls.handshake_started;
  ready = s.dtls.srtp_ready;
  expected = s.dtls.expected_fingerprint;
  closed_calls = s.closed_calls;
}

-- The engine's part.
abbrev pub quiet : DtlsSrtp → DtlsState × Bool × Bool × List ℕ
quiet d = (d.state, d.handshake_started, d.srtp_ready, d.expected_fingerprint)

-- The core with that part of an engine.
abbrev pub with_engine : RtcSession → DtlsState × Bool × Bool × List ℕ → Core
with_engine s (state, started, ready, expected) = record {
  state = s.state;
  remote = s.remote;
  dtls_state = state;
  started = started;
  ready = ready;
  expected = expected;
  closed_calls = s.closed_calls;
}

quiet-bio_rx_read : (size : ℕ) (d : DtlsSrtp) → quiet (bio_rx_read size d).1 ≡ quiet d
unfolding bio_rx_read
quiet-bio_rx_read size d = elim (Bool-cases (d.rx_count == 0)) [
  | inl e ↦ rw (bio_rx_read, e) refl
  | inr e ↦ elim (Bool-cases (ltb size (length (get_or d.rxq d.rx_head [])))) [
    | inl l ↦ rw (bio_rx_read, e, l) refl
    | inr l ↦ rw (bio_rx_read, e, l) refl
  ]
]

quiet-read_all : (sizes : List ℕ) (d : DtlsSrtp) → quiet (read_all sizes d) ≡ quiet d
unfolding read_all
quiet-read_all [] d = refl
quiet-read_all (size ∷ sizes) d =
    quiet-read_all sizes (bio_rx_read size d).1 ∙ quiet-bio_rx_read size d

pub quiet-enqueue :
    (allocated : Bool) (packet : List ℕ) (d : DtlsSrtp)
    → quiet (enqueue allocated packet d) ≡ quiet d
unfolding enqueue
quiet-enqueue true packet d = elim (Bool-cases (leb 64 d.rx_count)) [
  | inl e ↦ rw (enqueue, e) refl
  | inr e ↦ rw (enqueue, e) refl
]
quiet-enqueue false packet d = elim (Bool-cases (leb 64 d.rx_count)) [
  | inl e ↦ rw (enqueue, e) refl
  | inr e ↦ rw (enqueue, e) refl
]

pub core-send_udp : (packet : List ℕ) (s : RtcSession) → core (send_udp packet s) ≡ core s
unfolding send_udp
core-send_udp packet s = elim (Option-cases s.remote) [
  | inl e ↦ rw (send_udp, e) (ap (λ r. record (core s) { remote = r }) e)
  | inr (peer, e) ↦ rw (send_udp, e) (ap (λ r. record (core s) { remote = r }) e)
]

pub core-write_all :
    (packets : List (List ℕ)) (s : RtcSession) → core (write_all packets s) ≡ core s
unfolding write_all
core-write_all [] s = refl
core-write_all (packet ∷ packets) s = elim (Bool-cases (length packet == 0)) [
  | inl e ↦ rw (write_all, e) (core-write_all packets s)
  | inr e ↦ rw (write_all, e) (core-write_all packets (send_udp packet s) ∙ core-send_udp packet s)
]

pub core-ssl_call : (call : SslCall) (s : RtcSession) → core (ssl_call call s) ≡ core s
unfolding ssl_call
core-ssl_call call s =
    core-write_all call.writes (record s { dtls = read_all call.reads s.dtls })
    ∙ ap (with_engine s) (quiet-read_all call.reads s.dtls)

pub core-request_idr : (env : Env) (s : RtcSession) → core (rtc_session_request_idr env s) ≡ core s
unfolding rtc_session_request_idr
core-request_idr env s =
    elim (Bool-cases
      (not (s.last_idr_ms == 0) && ltb (since env.idr_now s.last_idr_ms) idr_min_interval_ms)) [
        | inl e ↦ rw e refl
        | inr e ↦ rw e refl
      ]
