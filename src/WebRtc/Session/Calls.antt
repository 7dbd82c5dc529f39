-- ===== src/WebRtc/Session/Calls.antt =====
-- The calls that the server makes of src/webrtc/webrtc_session.c, in any order.
use ideal_broccoli.Base.{ℕ, refl, Bool, List, [], ◌∷◌, take}
use ideal_broccoli.WebRtc.IceLite.{Peer}
use ideal_broccoli.WebRtc.Dtls
use ideal_broccoli.WebRtc.Session.{
  RtcSession, Env, create, rtc_session_close, rtc_session_request_idr,
}
use ideal_broccoli.WebRtc.Session.Media.{rtc_session_send_access_unit, rtc_session_tick}
use ideal_broccoli.WebRtc.Session.Datagram.{rtc_session_on_udp}
use ideal_broccoli.WebRtc.Session.Core.{core, core-request_idr}
use ideal_broccoli.WebRtc.Session.Life.{Life, LifeSteps, At, Lives, stays}
use ideal_broccoli.WebRtc.Session.Ending.{close_lives}
use ideal_broccoli.WebRtc.Session.Steady.{core-send_access_unit}
use ideal_broccoli.WebRtc.Session.Lifecycle.{rtc_session_on_udp_lives, rtc_session_tick_lives}

-- A call, with what the clock and the libraries answer to it.
pub data Call : Type 0 where
  datagram : Env → List ℕ → Peer → Call
  tick : Env → Call
  access_unit : Env → List ℕ → ℕ → Bool → Call
  request_idr : Env → Call
  close : Env → Call

pub serve : Call → RtcSession → RtcSession
serve (Call.datagram env buffer source) s = rtc_session_on_udp env buffer source s
serve (Call.tick env) s = rtc_session_tick env s
serve (Call.access_unit env bytes pts_us is_idr) s =
    (rtc_session_send_access_unit env bytes pts_us is_idr s).0
serve (Call.request_idr env) s = rtc_session_request_idr env s
serve (Call.close env) s = rtc_session_close env s

pub run : List Call → RtcSession → RtcSession
run [] s = s
run (call ∷ calls) s = run calls (serve call s)

-- What the clock and the libraries answer to a call.
abbrev pub answers : Call → Env
answers (Call.datagram env buffer source) = env
answers (Call.tick env) = env
answers (Call.access_unit env bytes pts_us is_idr) = env
answers (Call.request_idr env) = env
answers (Call.close env) = env

-- The life of a session through a sequence of calls: each call makes its steps, with its answers.
pub data Lived : List Call → Life → Life → Type 0 where
  rests : {l : Life} → Lived [] l l
  goes :
      {call : Call} {calls : List Call} {l m n : Life}
      → LifeSteps (answers call) l m
      → Lived calls m n
      → Lived (call ∷ calls) l n

serve_lives :
    (offer : List ℕ) (l : Life) (call : Call) (s : RtcSession)
    → At offer l (core s)
    → Lives offer (answers call) l (core (serve call s))
unfolding serve
serve_lives offer l (Call.datagram env buffer source) s at =
    rtc_session_on_udp_lives offer l env buffer source s at
serve_lives offer l (Call.tick env) s at = rtc_session_tick_lives offer l env s at
serve_lives offer l (Call.access_unit env bytes pts_us is_idr) s at =
    stays l (core s) (core (serve (Call.access_unit env bytes pts_us is_idr) s))
      (core-send_access_unit env bytes pts_us is_idr s) at
serve_lives offer l (Call.request_idr env) s at =
    stays l (core s) (core (rtc_session_request_idr env s)) (core-request_idr env s) at
serve_lives offer l (Call.close env) s at = close_lives offer l env s at

-- From any place of its life, every sequence of calls with any arguments and any answers of the
-- libraries takes a session, each call by steps of its life, to a place where it stands: the states
-- of the session and of its engine agree, a streaming session has keys, the server was told of the
-- end exactly once, when there is one, the fingerprint that the session expects is still the one of
-- the offer, and the digest that a call which begins to stream got for the peer's certificate is
-- the one of that fingerprint, if the offer has one.
pub run_refines :
    (offer : List ℕ) (calls : List Call) (l : Life) (s : RtcSession)
    → At offer l (core s)
    → (m : Life) × Lived calls l m × At offer m (core (run calls s))
unfolding run
run_refines offer [] l s at = (l, Lived.rests, at)
run_refines offer (call ∷ calls) l s at = elim (serve_lives offer l call s at) [
  | Lives.lives m steps there ↦
      let rest = run_refines offer calls m (serve call s) there in
      (rest.0, Lived.goes steps rest.1, rest.2)
]

-- A session that is created stands at the beginning of its life, with the fingerprint of the offer,
-- as far as it fits its buffer.
pub create-At :
    (ufrag pwd fingerprint : List ℕ) (ssrc payload_type now : ℕ)
    → At
        (take 127 fingerprint)
        Life.fresh
        (core (create ufrag pwd fingerprint ssrc payload_type now))
unfolding create Dtls.create
create-At ufrag pwd fingerprint ssrc payload_type now = record {
  state_eq = refl;
  dtls_eq = refl;
  remote_eq = refl;
  started_eq = refl;
  ready_eq = refl;
  calls_eq = refl;
  expected_eq = refl;
}
