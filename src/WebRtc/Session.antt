-- ===== src/WebRtc/Session.antt =====
-- src/webrtc/webrtc_session.c: the state of a viewer's session, with the functions of
-- src/webrtc/dtls_srtp.c that call back into it. The callbacks are the functions that
-- `rtc_session_create` registers. Every datagram that goes to the socket is an entry of `sent`, the
-- newest first, and each call of the server's two hooks is counted. What is printed is left out,
-- and so are the reads of the username for it.
pub mod Media
pub mod Datagram
pub mod Closing
pub mod Core
pub mod Life
pub mod Steady
pub mod Ending
pub mod Handshake
pub mod Follow
pub mod Lifecycle
pub mod Calls
pub mod Peers
pub mod Authority
pub mod Retransmit
pub mod Pacing
mod Tests
use ideal_broccoli.Base.{
  ℕ, zero, suc, ◌+◌, ◌-◌, ◌%◌, ◌^◌, Bool, true, false, not, ◌&&◌, ◌||◌, Option, none, some, List,
  [], ◌∷◌, ltb, leb, ◌==◌, if◌then◌else◌, length, get_or, set, replicate, take,
}
use ideal_broccoli.WebRtc.IceLite.{Peer}
use ideal_broccoli.WebRtc.RtpH264
use ideal_broccoli.WebRtc.RtpH264.{RtpH264, RtpPacket, packetize}
use ideal_broccoli.WebRtc.Rtcp
use ideal_broccoli.WebRtc.Rtcp.{RtcpFeedback, build_sender_report}
use ideal_broccoli.WebRtc.Dtls
use ideal_broccoli.WebRtc.Dtls.{
  DtlsState, DtlsSrtp, same_state, bio_rx_read, enqueue, Derivation, derive_srtp_keys,
}

pub data RtcSessionState : Type 0 where
  new : RtcSessionState
  ice : RtcSessionState
  dtls : RtcSessionState
  streaming : RtcSessionState
  closed : RtcSessionState

-- The values of the C enumeration.
abbrev pub rtc_code : RtcSessionState → ℕ
rtc_code RtcSessionState.new = 0
rtc_code RtcSessionState.ice = 1
rtc_code RtcSessionState.dtls = 2
rtc_code RtcSessionState.streaming = 3
rtc_code RtcSessionState.closed = 4

abbrev pub is_in : RtcSessionState → RtcSessionState → Bool
is_in a b = rtc_code a == rtc_code b

pub record RtcSessionStats : Type 0 where
  pub packets_sent : ℕ
  pub bytes_sent : ℕ
  pub pli_received : ℕ
  pub nacks_received : ℕ
  pub retransmissions : ℕ
  pub rtcp_sent : ℕ
  pub stun_rx : ℕ
  pub stun_ok : ℕ
  pub stun_bad_user : ℕ
  pub peer_moved : ℕ

-- `remote` is `none` as long as `have_remote` is 0. A slot of `retx` is the part of `retx_data` that
-- `retx_len` counts.
pub record RtcSession : Type 0 where
  pub state : RtcSessionState
  pub local_ufrag : List ℕ
  pub local_pwd : List ℕ
  pub remote : Option Peer
  pub dtls : DtlsSrtp
  pub rtp : RtpH264
  pub created_ms : ℕ
  pub last_rx_ms : ℕ
  pub last_idr_ms : ℕ
  pub next_sr_ms : ℕ
  pub idr_requested : Bool
  pub streaming_announced : Bool
  pub stats : RtcSessionStats
  pub retx : List (List ℕ)
  pub sent : List (Peer × List ℕ)
  pub idr_requests : ℕ
  pub closed_calls : ℕ

abbrev pub bump32 : ℕ → ℕ
bump32 n = (n + 1) % 2 ^ 32

-- A difference of 64-bit times.
abbrev pub since : ℕ → ℕ → ℕ
since now then' = (now + 2 ^ 64 - then') % 2 ^ 64

-- A call of an SSL function: it makes reads of these sizes from the queue and writes these records,
-- and the code tells its results apart by these cases (`again` is WANT_READ or WANT_WRITE).
pub data SslOutcome : Type 0 where
  done : SslOutcome
  again : SslOutcome
  error : SslOutcome
  eof : SslOutcome

pub record SslCall : Type 0 where
  pub reads : List ℕ
  pub writes : List (List ℕ)
  pub outcome : SslOutcome

-- What the clock, OpenSSL and libsrtp answer during one call of the session's functions. The clock
-- is read by the function itself, by a keyframe request, and for the first sender report; `stack` is
-- what a local buffer holds before it is written.
pub record Env : Type 0 where
  pub now : ℕ
  pub idr_now : ℕ
  pub sr_now : ℕ
  pub wall_us : ℕ
  pub hmac : List ℕ → List ℕ → List ℕ
  pub stack : List ℕ
  pub allocated : Bool
  pub accept : SslCall
  pub read : SslCall
  pub finished : Bool
  pub derivation : Derivation
  pub shutdown : List (List ℕ)
  pub timeout_writes : List (List ℕ)
  pub protect : List ℕ → Option (List ℕ)
  pub protect_rtcp : List ℕ → Option (List ℕ)
  pub unprotect_rtcp : List ℕ → Option (List ℕ)

abbrev pub retx_cache_size : ℕ
retx_cache_size = 512

-- `rtc_session_create`, once the socket is bound: the answer is that of WebRtc/Sdp.
unfoldable pub create : List ℕ → List ℕ → List ℕ → ℕ → ℕ → ℕ → RtcSession
create ufrag pwd fingerprint ssrc payload_type now = record {
  state = RtcSessionState.new;
  local_ufrag = ufrag;
  local_pwd = pwd;
  remote = none;
  dtls = Dtls.create fingerprint;
  rtp = RtpH264.reset RtpH264.create (if ssrc == 0 then 0x1234ABCD else ssrc) payload_type;
  created_ms = now;
  last_rx_ms = now;
  last_idr_ms = 0;
  next_sr_ms = 0;
  idr_requested = false;
  streaming_announced = false;
  stats = record {
    packets_sent = 0;
    bytes_sent = 0;
    pli_received = 0;
    nacks_received = 0;
    retransmissions = 0;
    rtcp_sent = 0;
    stun_rx = 0;
    stun_ok = 0;
    stun_bad_user = 0;
    peer_moved = 0;
  };
  retx = replicate retx_cache_size [];
  sent = [];
  idr_requests = 0;
  closed_calls = 0;
}

-- `dtls_send_udp`; the socket of a session is open.
pub send_udp : List ℕ → RtcSession → RtcSession
send_udp packet s = elim s.remote [
  | none ↦ s
  | some peer ↦ record s { sent = (peer, packet) ∷ s.sent }
]

-- The calls of `bio_tx_write`.
pub write_all : List (List ℕ) → RtcSession → RtcSession
write_all [] s = s
write_all (packet ∷ packets) s =
    write_all packets (if length packet == 0 then s else send_udp packet s)

read_all : List ℕ → DtlsSrtp → DtlsSrtp
read_all [] d = d
read_all (size ∷ sizes) d = read_all sizes (bio_rx_read size d).1

pub ssl_call : SslCall → RtcSession → RtcSession
ssl_call call s = write_all call.writes (record s { dtls = read_all call.reads s.dtls })

-- `dtls_set_state`, with the callback.
pub dtls_set_state : (DtlsState → RtcSession → RtcSession) → DtlsState → RtcSession → RtcSession
dtls_set_state on_state state s =
    if same_state s.dtls.state state
    then s
    else on_state state (record s { dtls = record s.dtls { state = state } })

-- `dtls_on_state`, with the function that closes the session.
pub on_state : (RtcSession → RtcSession) → DtlsState → RtcSession → RtcSession
on_state close DtlsState.handshaking s = record s { state = RtcSessionState.dtls }
on_state close DtlsState.failed s = close s
on_state close DtlsState.closed s = close s
on_state close DtlsState.init s = s
on_state close DtlsState.connected s = s

-- `dtls_srtp_close`.
pub dtls_close : Env → (DtlsState → RtcSession → RtcSession) → RtcSession → RtcSession
unfolding dtls_set_state
dtls_close env callback s =
    dtls_set_state callback DtlsState.closed
      (if same_state s.dtls.state DtlsState.connected then write_all env.shutdown s else s)

-- `rtc_session_close`, which `dtls_srtp_close` calls back: with the depth of calls that is allowed.
pub close_on : ℕ → Env → RtcSession → RtcSession
close_on zero env s = s
close_on (suc n) env s =
    let s' =
      dtls_close env (on_state (close_on n env)) (record s { state = RtcSessionState.closed }) in
    if is_in s.state RtcSessionState.closed
    then s
    else record s' { closed_calls = s'.closed_calls + 1 }

-- Two calls are inside one another at most.
pub rtc_session_close : Env → RtcSession → RtcSession
rtc_session_close = close_on 2

abbrev pub registered : Env → DtlsState → RtcSession → RtcSession
registered env = on_state (rtc_session_close env)

abbrev pub idr_min_interval_ms : ℕ
idr_min_interval_ms = 400

pub rtc_session_request_idr : Env → RtcSession → RtcSession
rtc_session_request_idr env s =
    if not (s.last_idr_ms == 0) && ltb (since env.idr_now s.last_idr_ms) idr_min_interval_ms
    then s
    else record s {
      last_idr_ms = env.idr_now;
      idr_requested = true;
      idr_requests = s.idr_requests + 1;
    }

pub on_connected : Env → RtcSession → RtcSession
on_connected env s =
    let s' = rtc_session_request_idr env (record s { state = RtcSessionState.streaming }) in
    record s' { next_sr_ms = env.sr_now + 1000 }

-- The two ways to begin `pump_ssl`; the flag tells whether it goes on.
pub start_handshake : Env → RtcSession → RtcSession × Bool
start_handshake env s =
    let s' = ssl_call env.accept (
      dtls_set_state (registered env) DtlsState.handshaking
        (record s { dtls = record s.dtls { handshake_started = true } })) in
    let failed = dtls_set_state (registered env) DtlsState.failed s' in
    elim env.accept.outcome [
      | SslOutcome.done ↦ (s', true)
      | SslOutcome.again ↦ (s', true)
      | SslOutcome.error ↦ (failed, false)
      | SslOutcome.eof ↦ (failed, false)
    ]

pub continue_handshake : Env → RtcSession → RtcSession × Bool
continue_handshake env s =
    let s' = ssl_call env.read s in
    elim env.read.outcome [
      | SslOutcome.done ↦ (s', true)
      | SslOutcome.again ↦ (s', true)
      | SslOutcome.error ↦ (dtls_set_state (registered env) DtlsState.failed s', false)
      | SslOutcome.eof ↦ (dtls_set_state (registered env) DtlsState.closed s', false)
    ]

-- The keys, once the handshake is finished.
pub connect : Env → RtcSession → RtcSession
connect env s =
    let (d, derived) = derive_srtp_keys env.derivation s.dtls in
    let s' = record s { dtls = d } in
    if derived
    then on_connected env (dtls_set_state (registered env) DtlsState.connected s')
    else dtls_set_state (registered env) DtlsState.failed s'

pub finish_pump : Env → RtcSession × Bool → RtcSession
finish_pump env (s, goes_on) =
    if goes_on && (not s.dtls.srtp_ready && env.finished) then connect env s else s

pub pump_ssl : Env → RtcSession → RtcSession
pump_ssl env s =
    if same_state s.dtls.state DtlsState.closed || same_state s.dtls.state DtlsState.failed
    then s
    else finish_pump env
        (if s.dtls.handshake_started then continue_handshake env s else start_handshake env s)

pub dtls_on_udp : Env → List ℕ → RtcSession → RtcSession
dtls_on_udp env packet s =
    let s' = record s { dtls = enqueue env.allocated packet s.dtls } in
    if same_state s.dtls.state DtlsState.failed
    then s
    else if env.allocated
    then pump_ssl env s'
    else s'

-- The timer's retransmission is a call of OpenSSL that writes.
pub dtls_tick : Env → RtcSession → RtcSession
dtls_tick env s =
    if same_state s.dtls.state DtlsState.handshaking
    then pump_ssl env (write_all env.timeout_writes s)
    else s
