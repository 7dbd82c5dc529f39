-- ===== src/Janus/RtpSender/Drain.antt =====
-- The drain of the ring in src/janus/janus_rtp_sender.c over the queue that the ring stands for.
use ideal_broccoli.Base.{
  ℕ, zero, suc, ◌+◌, ◌%◌, ◌^◌, ◌<◌, ◌≡◌, refl, sym, ap, ◌∙◌, true, false, Bool-cases, inl, inr,
  Option, none, some, Option-cases, List, [], ◌∷◌, arith, leb, if◌then◌else◌, length,
}
use ideal_broccoli.Media.AuRing.{AuRing, AccessUnit, pop}
use ideal_broccoli.Media.AuRing.Invariant.{IsValid, pop-IsValid}
use ideal_broccoli.Media.AuRing.Refine.{contents, pop_refines}
use ideal_broccoli.WebRtc.RtpH264.{RtpPacket, packetize}
use ideal_broccoli.Janus.RtpSender.{JanusRtpSender, Socket, send_sink, send_all, send_unit, drain}

-- The access units that are sent, up to the first that does not fit, which is lost, and those that
-- stay behind it.
pub fitting : ℕ → List AccessUnit → List AccessUnit × List AccessUnit
fitting capacity [] = ([], [])
fitting capacity (unit ∷ units) =
    let (sent, left) = fitting capacity units in
    if leb unit.1.size capacity then (unit ∷ sent, left) else ([], units)

pub send_units : Socket → List AccessUnit → JanusRtpSender → JanusRtpSender
send_units socket [] s = s
send_units socket (unit ∷ units) s = send_units socket units (send_unit socket unit s)

capacity-send_sink :
    (socket : Socket) (packet : RtpPacket) (s : JanusRtpSender)
    → (send_sink socket packet s).au_capacity ≡ s.au_capacity
unfolding send_sink
capacity-send_sink socket packet s = elim (Option-cases (socket (length s.attempted))) [
  | inl e ↦ simp (send_sink, e) refl
  | inr (now, e) ↦ simp (send_sink, e) refl
]

capacity-send_all :
    (socket : Socket) (packets : List RtpPacket) (s : JanusRtpSender)
    → (send_all socket packets s).au_capacity ≡ s.au_capacity
unfolding send_all
capacity-send_all socket [] s = refl
capacity-send_all socket (packet ∷ packets) s =
    capacity-send_all socket packets (send_sink socket packet s)
    ∙ capacity-send_sink socket packet s

capacity-send_unit :
    (socket : Socket) (unit : AccessUnit) (s : JanusRtpSender)
    → (send_unit socket unit s).au_capacity ≡ s.au_capacity
unfolding send_unit
capacity-send_unit socket (bytes, meta) s =
    elim (Option-cases (packetize s.packetizer bytes meta.pts_us)) [
      | inl e ↦ simp (send_unit, e) refl
      | inr ((packets, packetizer), e) ↦
          simp (send_unit, e)
            (capacity-send_all socket packets (record s {
              stats = record s.stats { access_units = (s.stats.access_units + 1) % 2 ^ 64 };
              packetizer = packetizer;
            }))
    ]

-- What a drain of a ring with these contents leaves and sends.
record Drained (socket : Socket) (ring : AuRing) (s : JanusRtpSender) (units : List AccessUnit)
    (r : AuRing × JanusRtpSender) : Type 0 where
  sender : r.1 ≡ send_units socket (fitting s.au_capacity units).0 s
  left : contents r.0 ≡ (fitting s.au_capacity units).1
  valid : IsValid r.0

fitting_fits :
    (capacity : ℕ) (unit : AccessUnit) (units : List AccessUnit)
    → leb unit.1.size capacity ≡ true
    → fitting capacity (unit ∷ units)
      ≡ (unit ∷ (fitting capacity units).0, (fitting capacity units).1)
unfolding fitting
fitting_fits capacity unit units e = rw (fitting, e) refl

fitting_lost :
    (capacity : ℕ) (unit : AccessUnit) (units : List AccessUnit)
    → leb unit.1.size capacity ≡ false
    → fitting capacity (unit ∷ units) ≡ ([], units)
unfolding fitting
fitting_lost capacity unit units e = rw (fitting, e) refl

-- One round, when there is a unit.
drain_next :
    (n : ℕ) (socket : Socket) (ring : AuRing) (s : JanusRtpSender) (unit : AccessUnit)
    (units : List AccessUnit)
    → IsValid ring
    → contents (pop ring s.au_capacity).1 ≡ units
    → (pop ring s.au_capacity).0 ≡ (if leb unit.1.size s.au_capacity then some unit else none)
    → ((ring' : AuRing) (s' : JanusRtpSender)
        → IsValid ring'
        → contents ring' ≡ units
        → Drained socket ring' s' units (drain n socket ring' s'))
    → Drained socket ring s (unit ∷ units) (drain (suc n) socket ring s)
unfolding drain send_units
drain_next n socket ring s unit units v rest out again =
    elim (Bool-cases (leb unit.1.size s.au_capacity)) [
      | inr e ↦
          let lost : (pop ring s.au_capacity).0 ≡ none =
            out ∙ ap (λ b. if b then some unit else none) e in
          let shape = sym (fitting_lost s.au_capacity unit units e) in
          simp (drain, lost)
            (record {
              sender =
                  ap (λ (f : List AccessUnit × List AccessUnit). send_units socket f.0 s) shape;
              left = rest ∙ ap (λ (f : List AccessUnit × List AccessUnit). f.1) shape;
              valid = pop-IsValid ring s.au_capacity v;
            })
      | inl e ↦
          let got : (pop ring s.au_capacity).0 ≡ some unit =
            out ∙ ap (λ b. if b then some unit else none) e in
          let shape = sym (fitting_fits s.au_capacity unit units e) in
          let s' = send_unit socket unit s in
          let d = again (pop ring s.au_capacity).1 s' (pop-IsValid ring s.au_capacity v) rest in
          let same = capacity-send_unit socket unit s in
          simp (drain, got)
            (record {
              sender =
                  d.sender
                  ∙ ap (λ c. send_units socket (fitting c units).0 s') same
                  ∙ ap (λ (f : List AccessUnit × List AccessUnit). send_units socket f.0 s) shape;
              left =
                  d.left
                  ∙ ap (λ c. (fitting c units).1) same
                  ∙ ap (λ (f : List AccessUnit × List AccessUnit). f.1) shape;
              valid = d.valid;
            })
    ]

drain_empty :
    (n : ℕ) (socket : Socket) (ring : AuRing) (s : JanusRtpSender)
    → IsValid ring
    → contents ring ≡ []
    → pop ring s.au_capacity ≡ (none, ring)
    → Drained socket ring s [] (drain (suc n) socket ring s)
unfolding drain fitting send_units
drain_empty n socket ring s v nothing same =
    let none_out : (pop ring s.au_capacity).0 ≡ none =
      ap (λ (p : Option AccessUnit × AuRing). p.0) same in
    let kept : (pop ring s.au_capacity).1 ≡ ring =
      ap (λ (p : Option AccessUnit × AuRing). p.1) same in
    simp (drain, none_out)
      (record {
        sender = refl;
        left = ap contents kept ∙ nothing;
        valid = pop-IsValid ring s.au_capacity v;
      })

drain_on :
    (n : ℕ) (socket : Socket) (units : List AccessUnit) (ring : AuRing) (s : JanusRtpSender)
    → IsValid ring
    → contents ring ≡ units
    → length units < n
    → Drained socket ring s units (drain n socket ring s)
drain_on zero socket units ring s v e small = absurd (omega (arith, small))
drain_on (suc n) socket [] ring s v e small = elim (pop_refines ring s.au_capacity v) [
  | inl (nothing, same) ↦ drain_empty n socket ring s v nothing same
  | inr (x, more, out) ↦ cc (e, more)
]
drain_on (suc n) socket (unit ∷ units) ring s v e small = elim (pop_refines ring s.au_capacity v) [
  | inl (nothing, same) ↦ cc (e, nothing)
  | inr (x, more, out) ↦
      let first : x ≡ unit = cc (e, more) in
      let rest : contents (pop ring s.au_capacity).1 ≡ units = cc (e, more) in
      drain_next n socket ring s unit units v rest
        (out ∙ ap (λ (y : AccessUnit). if leb y.1.size s.au_capacity then some y else none) first)
        (λ ring' s' v' e'. drain_on n socket units ring' s' v' e' (omega (arith, small)))
]

-- A drain of a valid ring, with more rounds than the ring has access units, sends them oldest first
-- up to the first that does not fit the sender's buffer. That one is lost, and the ring is left
-- valid with those behind it; when all fit, it is empty.
pub drain_refines :
    (n : ℕ) (socket : Socket) (ring : AuRing) (s : JanusRtpSender)
    → IsValid ring
    → length (contents ring) < n
    → let (ring', s') = drain n socket ring s in
      let (sent, left) = fitting s.au_capacity (contents ring) in
      (s' ≡ send_units socket sent s) × (contents ring' ≡ left) × IsValid ring'
drain_refines n socket ring s v small =
    let d = drain_on n socket (contents ring) ring s v refl small in (d.sender, d.left, d.valid)
