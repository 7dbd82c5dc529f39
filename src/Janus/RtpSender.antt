-- ===== src/Janus/RtpSender.antt =====
-- src/janus/janus_rtp_sender.c: the thread that sends the access units of the ring to a Janus
-- gateway as RTP, with its sender reports and the feedback that it gets. What the sockets and the
-- clocks answer is an argument; what is printed is left out.
pub mod Drain
pub mod Units
pub mod Stream
mod Tests
use ideal_broccoli.Base.{
  ℕ, zero, suc, ◌+◌, ◌%◌, ◌^◌, Bool, true, false, not, ◌&&◌, ◌||◌, Option, none, some, List, [],
  ◌∷◌, ◌++◌, ltb, leb, ◌==◌, if◌then◌else◌, length, take,
}
use ideal_broccoli.Media.AuRing.{AuRing, AuMeta, AccessUnit, pop}
use ideal_broccoli.WebRtc.RtpH264
use ideal_broccoli.WebRtc.RtpH264.{RtpH264, RtpPacket, packetize}
use ideal_broccoli.WebRtc.Rtcp
use ideal_broccoli.WebRtc.Rtcp.{RtcpFeedback, build_sender_report}

pub record JanusRtpSenderStats : Type 0 where
  pub access_units : ℕ
  pub packets_sent : ℕ
  pub octets_sent : ℕ
  pub send_errors : ℕ
  pub sr_sent : ℕ
  pub rtcp_received : ℕ
  pub pli_received : ℕ
  pub fir_received : ℕ
  pub last_rtp_send_ms : ℕ

-- The flag that the encoder reads is part of the state. `attempted` are the RTP packets that
-- `sendto` was called with, oldest first, and `reports` the sender reports.
pub record JanusRtpSender : Type 0 where
  pub ssrc : ℕ
  pub payload_type : ℕ
  pub au_capacity : ℕ
  pub packetizer : RtpH264
  pub running : Bool
  pub send_error_logged : Bool
  pub stats : JanusRtpSenderStats
  pub force_idr : Bool
  pub attempted : List RtpPacket
  pub reports : List (List ℕ)

abbrev pub default_ssrc : ℕ
default_ssrc = 0xC4FEF00D

abbrev pub default_pt : ℕ
default_pt = 96

-- What is tested and stored when the host is resolved, the sockets are open and the memory is
-- there.
pub create : ℕ → ℕ → ℕ → ℕ → ℕ → Bool → ℕ → Option JanusRtpSender
create rtp_port rtcp_port rtcp_listen_port ssrc payload_type force_idr au_capacity =
    let ssrc' = if ssrc == 0 then default_ssrc else ssrc in
    let payload_type' = if payload_type == 0 then default_pt else payload_type in
    if au_capacity == 0 || rtp_port == 0 || rtcp_port == 0 || rtcp_listen_port == 0
    then none
    else some (record {
      ssrc = ssrc';
      payload_type = payload_type';
      au_capacity = au_capacity;
      packetizer = RtpH264.reset RtpH264.create ssrc' payload_type';
      running = true;
      send_error_logged = false;
      stats = record {
        access_units = 0;
        packets_sent = 0;
        octets_sent = 0;
        send_errors = 0;
        sr_sent = 0;
        rtcp_received = 0;
        pli_received = 0;
        fir_received = 0;
        last_rtp_send_ms = 0;
      };
      force_idr = force_idr;
      attempted = [];
      reports = [];
    })

abbrev pub bump32 : ℕ → ℕ
bump32 n = (n + 1) % 2 ^ 32

-- The answer to the call of `sendto` with this number, counted from 0: `none` is an error, otherwise
-- it is the time that is read behind it.
abbrev pub Socket : Type 0
Socket = ℕ → Option ℕ

pub send_sink : Socket → RtpPacket → JanusRtpSender → JanusRtpSender
send_sink socket packet s =
    let s' = record s { attempted = s.attempted ++ (packet ∷ []) } in
    elim (socket (length s.attempted)) [
      | none ↦ record s' {
        send_error_logged = true;
        stats = record s.stats { send_errors = bump32 s.stats.send_errors };
      }
      | some now ↦ record s' {
        send_error_logged = false;
        stats = record s.stats {
          packets_sent = bump32 s.stats.packets_sent;
          octets_sent = (s.stats.octets_sent + length packet.bytes) % 2 ^ 32;
          last_rtp_send_ms = now;
        };
      }
    ]

pub send_all : Socket → List RtpPacket → JanusRtpSender → JanusRtpSender
send_all socket [] s = s
send_all socket (packet ∷ packets) s = send_all socket packets (send_sink socket packet s)

-- One access unit in, its packets out.
pub send_unit : Socket → AccessUnit → JanusRtpSender → JanusRtpSender
send_unit socket (bytes, meta) s =
    let s' = record s {
      stats = record s.stats { access_units = (s.stats.access_units + 1) % 2 ^ 64 };
    } in
    elim (packetize s.packetizer bytes meta.pts_us) [
      | none ↦ s'
      | some (packets, packetizer) ↦ send_all socket packets (record s' { packetizer = packetizer })
    ]

-- The loop that drains the ring, with the rounds that it may make. The encoder pushes between two
-- drains.
pub drain : ℕ → Socket → AuRing → JanusRtpSender → AuRing × JanusRtpSender
drain zero socket ring s = (ring, s)
drain (suc n) socket ring s =
    let (out, ring') = pop ring s.au_capacity in
    elim out [ none ↦ (ring', s) | some unit ↦ drain n socket ring' (send_unit socket unit s) ]

abbrev pub rtcp_buf_size : ℕ
rtcp_buf_size = 1500

pub on_feedback : RtcpFeedback → JanusRtpSender → JanusRtpSender
on_feedback feedback s =
    if ltb 0 feedback.pli || ltb 0 feedback.fir
    then record s {
      force_idr = true;
      stats = record s.stats {
        pli_received = (s.stats.pli_received + feedback.pli) % 2 ^ 32;
        fir_received = (s.stats.fir_received + feedback.fir) % 2 ^ 32;
      };
    }
    else s

-- The datagrams that wait; one that is longer than the buffer is cut. The parser always has a
-- result.
pub handle_rtcp : List (List ℕ) → JanusRtpSender → JanusRtpSender
handle_rtcp [] s = s
handle_rtcp (datagram ∷ datagrams) s =
    let s' = record s { stats = record s.stats { rtcp_received = bump32 s.stats.rtcp_received } } in
    handle_rtcp datagrams (elim (Rtcp.parse (take rtcp_buf_size datagram)) [
      | none ↦ s'
      | some feedback ↦ on_feedback feedback s'
    ])

-- The flag tells whether the call of `sendto` succeeds.
pub send_sender_report : ℕ → Bool → JanusRtpSender → JanusRtpSender
send_sender_report wall_us accepted s =
    let sr =
      build_sender_report s.ssrc wall_us s.packetizer.last_timestamp s.packetizer.packets
        s.packetizer.octets in
    if accepted
    then record s {
      reports = s.reports ++ (sr ∷ []);
      stats = record s.stats { sr_sent = bump32 s.stats.sr_sent };
    }
    else s

abbrev pub sr_interval_ms : ℕ
sr_interval_ms = 5000

-- What the system answers in one round of the thread: `poll` is interrupted, fails, or comes back
-- with the datagrams that wait.
pub data Polled : Type 0 where
  interrupted : Polled
  failed : Polled
  waiting : List (List ℕ) → Polled

pub record Round : Type 0 where
  pub polled : Polled
  pub now : ℕ
  pub wall_us : ℕ
  pub accepted : Bool

-- The thread's state, with the ring and the time of the next report.
pub record Thread : Type 0 where
  pub sender : JanusRtpSender
  pub ring : AuRing
  pub next_sr_ms : ℕ

pub sender_round : Socket → ℕ → Round → List (List ℕ) → Thread → Thread
sender_round socket n round datagrams t =
    let (ring, s) = drain n socket t.ring (handle_rtcp datagrams t.sender) in
    if leb t.next_sr_ms round.now
    then record {
      sender = send_sender_report round.wall_us round.accepted s;
      ring = ring;
      next_sr_ms = round.now + sr_interval_ms;
    }
    else record t { sender = s; ring = ring }

-- A round of the loop; the flag tells whether it goes on.
pub sender_step : Socket → Round → Thread → Thread × Bool
sender_step socket round t = elim round.polled [
  | Polled.interrupted ↦ (t, true)
  | Polled.failed ↦ (t, false)
  | Polled.waiting datagrams ↦ (sender_round socket (t.ring.count + 1) round datagrams t, true)
]

-- The rounds until the thread is stopped; between two of them the encoder does what it does to the
-- ring, and takes the flag.
pub sender_thread : Socket → List (Round × (AuRing → AuRing) × Bool) → Thread → Thread
sender_thread socket [] t = t
sender_thread socket ((round, others, taken) ∷ rounds) t =
    let (t', goes_on) = sender_step socket round t in
    let next = sender_thread socket rounds (record t' {
      ring = others t'.ring;
      sender = record t'.sender { force_idr = t'.sender.force_idr && not taken };
    }) in
    if goes_on then next else t'
