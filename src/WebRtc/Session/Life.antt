-- ===== src/WebRtc/Session/Life.antt =====
-- The life of a session, as the header of include/webrtc/webrtc_session.h draws it: the abstract
-- machine, whose steps name the call that makes them by what the libraries answer to it, and when a
-- session stands at one of its places.
use ideal_broccoli.Base.{
  ℕ, ◌≡◌, ◌⊎◌, refl, sym, subst, Bool, true, false, inl, inr, arith, suc, length, ◌==◌, ◌||◌,
  Option, none, some, List, [], ◌∷◌,
}
use ideal_broccoli.WebRtc.IceLite.{Peer}
use ideal_broccoli.WebRtc.Dtls.{DtlsState, fingerprint_hex_equal, is_expected}
use ideal_broccoli.WebRtc.Session.{RtcSessionState, Env}
use ideal_broccoli.WebRtc.Session.Core.{Core}

-- The places, with the peer where there is one, and with the digest of its certificate where it
-- was seen.
pub data Life : Type 0 where
  fresh : Life
  checked : Peer → Life
  greeting : Peer → Life
  streaming : Peer → Option (List ℕ) → Life
  over : Life

-- A session streams once its peer's certificate was seen in the call.
pub data LifeStep (env : Env) : Life → Life → Type 0 where
  check : (p : Peer) → LifeStep env Life.fresh (Life.checked p)
  move_checked : (p q : Peer) → LifeStep env (Life.checked p) (Life.checked q)
  move_greeting : (p q : Peer) → LifeStep env (Life.greeting p) (Life.greeting q)
  move_streaming :
      (p q : Peer) (digest : Option (List ℕ))
      → LifeStep env (Life.streaming p digest) (Life.streaming q digest)
  greet : (p : Peer) → LifeStep env (Life.checked p) (Life.greeting p)
  stream : (p : Peer) → LifeStep env (Life.greeting p) (Life.streaming p env.derivation.peer_digest)
  close : (l : Life) → LifeStep env l Life.over

pub data LifeSteps (env : Env) (l : Life) : Life → Type 0 where
  stay : LifeSteps env l l
  step : {m n : Life} → LifeSteps env l m → LifeStep env m n → LifeSteps env l n

-- The certificate with this digest is the one of the expected fingerprint. Nothing is expected when
-- the offer has no fingerprint.
pub Certified : List ℕ → Option (List ℕ) → Type 0
Certified expected none = expected ≡ []
Certified expected (some md) = (expected ≡ []) ⊎ (fingerprint_hex_equal expected md ≡ some true)

pub is_expected-Certified :
    (expected : List ℕ) (digest : Option (List ℕ))
    → is_expected expected digest ≡ true
    → Certified expected digest
unfolding Certified is_expected
is_expected-Certified [] none e = refl
is_expected-Certified (x ∷ expected) none e = absurd (ground (arith, e))
is_expected-Certified [] (some md) e = inl refl
is_expected-Certified (x ∷ expected) (some md) e = inr (
    accepted (fingerprint_hex_equal (x ∷ expected) md) (suc (length expected) == 0) (ground arith)
      e)
  where
    accepted :
        (answer : Option Bool) (nothing : Bool)
        → nothing ≡ false
        → (nothing || elim answer [ none ↦ false | some b ↦ b ]) ≡ true
        → answer ≡ some true
    accepted none nothing n h = ground (arith, n, h)
    accepted (some b) nothing n h = ground (arith, n, h)

-- Where a session stands, with all that this says of its engine. A streaming session has keys, and
-- its peer's certificate is the expected one.
pub record Stands (offer : List ℕ) (state : RtcSessionState) (dtls_state : DtlsState)
    (remote : Option Peer) (started ready : Bool) (calls : ℕ) (c : Core) : Type 0 where
  pub state_eq : c.state ≡ state
  pub dtls_eq : c.dtls_state ≡ dtls_state
  pub remote_eq : c.remote ≡ remote
  pub started_eq : c.started ≡ started
  pub ready_eq : c.ready ≡ ready
  pub calls_eq : c.closed_calls ≡ calls
  pub expected_eq : c.expected ≡ offer

abbrev pub At : List ℕ → Life → Core → Type 0
At offer Life.fresh c = Stands offer RtcSessionState.new DtlsState.init none false false 0 c
At offer (Life.checked p) c =
    Stands offer RtcSessionState.ice DtlsState.init (some p) false false 0 c
At offer (Life.greeting p) c =
    Stands offer RtcSessionState.dtls DtlsState.handshaking (some p) true false 0 c
At offer (Life.streaming p digest) c =
    Stands offer RtcSessionState.streaming DtlsState.connected (some p) true true 0 c
    × Certified offer digest
At offer Life.over c =
    (c.state ≡ RtcSessionState.closed)
    × (c.dtls_state ≡ DtlsState.closed)
    × (c.closed_calls ≡ 1)
    × (c.expected ≡ offer)

-- A session comes by steps of its life from `l` to where it stands, in one call.
pub data Lives (offer : List ℕ) (env : Env) (l : Life) (c : Core) : Type 0 where
  lives : (m : Life) → LifeSteps env l m → At offer m c → Lives offer env l c

module _ {offer : List ℕ} where
  pub Lives-trans :
      {env : Env} {l m : Life} {c : Core}
      → LifeSteps env l m
      → Lives offer env m c
      → Lives offer env l c
  Lives-trans r (lives n more at) = lives n (append r more) at
    where
      append : {e : Env} {a b c : Life} → LifeSteps e a b → LifeSteps e b c → LifeSteps e a c
      append r stay = r
      append r (step q st) = step (append r q) st

  -- A call that leaves the core alone leaves the session where it stands.
  pub stays : {env : Env} (l : Life) (c c' : Core) → c' ≡ c → At offer l c → Lives offer env l c'
  stays l c c' e at = lives l stay (subst (At offer l) (sym e) at)
