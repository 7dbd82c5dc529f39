-- ===== src/WebRtc/Session/Pacing.antt =====
-- How often src/webrtc/webrtc_session.c asks the encoder for a keyframe.
use ideal_broccoli.Base.{
  ℕ, ◌+◌, ◌-◌, ◌*◌, ◌^◌, ◌≤◌, ◌<◌, ◌≡◌, ◌⊎◌, refl, false, not, ◌&&◌, Bool-cases, inl, inr, List, [],
  ◌∷◌, arith, ltb, ◌==◌,
}
use ideal_broccoli.WebRtc.Session.{
  RtcSession, Env, since, idr_min_interval_ms, rtc_session_request_idr,
}

-- Requests in the order in which they are made.
pub ask_all : List Env → RtcSession → RtcSession
ask_all [] s = s
ask_all (env ∷ envs) s = ask_all envs (rtc_session_request_idr env s)

-- The clock reads these times, from `t` to `t'`.
pub data Rising : ℕ → List Env → ℕ → Type 0 where
  stop : {t : ℕ} → Rising t [] t
  next :
      {t t' : ℕ} {env : Env} {envs : List Env}
      → t ≤ env.idr_now
      → env.idr_now < 2 ^ 64
      → Rising env.idr_now envs t'
      → Rising t (env ∷ envs) t'

-- What holds at the time `t` of a session that had asked `n` times at the time `t0`.
record IsPaced (t0 n t : ℕ) (s : RtcSession) : Type 0 where
  from : t0 ≤ t
  counted : n ≤ s.idr_requests
  paced :
      ((s.last_idr_ms ≡ 0) × (s.idr_requests ≡ n))
      ⊎ ((t0 ≤ s.last_idr_ms)
          × (s.last_idr_ms ≤ t)
          × (400 * (s.idr_requests - n) ≤ s.last_idr_ms - t0 + 400))

-- A request that is made comes 400 ms behind the one before, if there is one.
gap :
    (last now : ℕ)
    → 0 < last
    → last ≤ now
    → now < 2 ^ 64
    → (not (last == 0) && ltb (since now last) 400) ≡ false
    → last + 400 ≤ now
gap last now pos le small h =
    let some_last : (last == 0) ≡ false = ground arith in
    let late : ltb (since now last) 400 ≡ false = ground (arith, h, some_last) in
    let exact : since now last ≡ now - last = omega arith in ground (arith, late, exact)

spaced :
    (t0 n t : ℕ) (env : Env) (s : RtcSession)
    → 0 < t0
    → t ≤ env.idr_now
    → env.idr_now < 2 ^ 64
    → IsPaced t0 n t s
    → (not (s.last_idr_ms == 0) && ltb (since env.idr_now s.last_idr_ms) 400) ≡ false
    → 400 * (s.idr_requests + 1 - n) ≤ env.idr_now - t0 + 400
spaced t0 n t env s pos later small p e = elim p.paced [
  | inl (a, b) ↦ omega (arith, b)
  | inr (a, b, c) ↦ omega (
    arith,
    a,
    b,
    c,
    p.counted,
    gap s.last_idr_ms env.idr_now (omega (arith, a)) (omega (arith, b, later)) small e,
  )
]

request_idr-IsPaced :
    (t0 n t : ℕ) (env : Env) (s : RtcSession)
    → 0 < t0
    → t ≤ env.idr_now
    → env.idr_now < 2 ^ 64
    → IsPaced t0 n t s
    → IsPaced t0 n env.idr_now (rtc_session_request_idr env s)
unfolding rtc_session_request_idr
request_idr-IsPaced t0 n t env s pos later small p =
    elim (Bool-cases
      (not (s.last_idr_ms == 0) && ltb (since env.idr_now s.last_idr_ms) idr_min_interval_ms)) [
        | inl e ↦
            simp (rtc_session_request_idr, e)
              (record {
                from = omega (arith, p.from, later);
                counted = p.counted;
                paced = elim p.paced [
                  | inl never ↦ inl never
                  | inr (a, b, c) ↦ inr (a, omega (arith, b, later), c)
                ];
              })
        | inr e ↦
            simp (rtc_session_request_idr, e)
              (record {
                from = omega (arith, p.from, later);
                counted = omega (arith, p.counted);
                paced = inr (
                  omega (arith, p.from, later),
                  omega arith,
                  spaced t0 n t env s pos later small p e,
                );
              })
      ]

ask_all-IsPaced :
    (t0 n t t' : ℕ) (envs : List Env) (s : RtcSession)
    → 0 < t0
    → Rising t envs t'
    → IsPaced t0 n t s
    → IsPaced t0 n t' (ask_all envs s)
unfolding ask_all
ask_all-IsPaced t0 n t t' [] s pos stop p = p
ask_all-IsPaced t0 n t t' (env ∷ envs) s pos (next later small rest) p =
    ask_all-IsPaced t0 n env.idr_now t' envs (rtc_session_request_idr env s) pos rest
      (request_idr-IsPaced t0 n t env s pos later small p)

-- However often keyframes are asked for between two times of a running clock, the encoder is asked
-- at most once in 400 ms, and once more: for a session that had not asked before.
pub ask_all_bound :
    (t t' : ℕ) (envs : List Env) (s : RtcSession)
    → 0 < t
    → s.last_idr_ms ≡ 0
    → Rising t envs t'
    → (s.idr_requests ≤ (ask_all envs s).idr_requests)
      × (400 * ((ask_all envs s).idr_requests - s.idr_requests) ≤ t' - t + 400)
ask_all_bound t t' envs s pos never rising =
    let p : IsPaced t s.idr_requests t s = record {
      from = omega arith;
      counted = omega arith;
      paced = inl (never, refl);
    } in
    let q = ask_all-IsPaced t s.idr_requests t t' envs s pos rising p in
    (
      q.counted,
      elim q.paced [ inl (a, b) ↦ omega (arith, b) | inr (a, b, c) ↦ omega (arith, a, b, c) ],
    )
