-- ===== src/App/Config/Usable.antt =====
-- What `app_config_parse` of src/app/app_config.c accepts.
use ideal_broccoli.Base.{
  ℕ, zero, suc, ◌^◌, ◌≤◌, ◌<◌, ◌≡◌, refl, sym, subst, ◌∙◌, Bool, true, Bool-cases, inl, inr, List,
  [], ◌∷◌, arith, if◌then◌else◌, length, list_eq, list_eq-eq,
}
use ideal_broccoli.App.Config.{
  Build, AppConfig, Outcome, Step, app_config_defaults, backend, parse_argument, parse_arguments,
  in_range, has_ports, check, and_check, app_config_parse,
}
use ideal_broccoli.App.Config.Ranges.{Sized, Round}
use ideal_broccoli.App.Config.Loop.{parse_argument-Round}

-- A configuration with which the program starts.
pub record IsUsable (build : Build) (c : AppConfig) : Type 0 where
  pub width : (2 ≤ c.width) × (c.width ≤ 4096)
  pub height : (2 ≤ c.height) × (c.height ≤ 4096)
  pub fps : (1 ≤ c.fps) × (c.fps ≤ 120)
  pub http_port : (1 ≤ c.http_port) × (c.http_port ≤ 65535)
  pub udp_base_port : (1 ≤ c.udp_base_port) × (c.udp_base_port ≤ 65535)
  pub bitrate_kbps : (1 ≤ c.bitrate_kbps) × (c.bitrate_kbps < 2 ^ 32)
  pub keyframe_seconds : (1 ≤ c.keyframe_seconds) × (c.keyframe_seconds < 2 ^ 32)
  pub transport : c.webrtc_backend ≡ backend build
  pub janus_ports :
      build ≡ Build.janus
      → ((1 ≤ c.janus_rtp_port) × (c.janus_rtp_port ≤ 65535))
        × ((1 ≤ c.janus_rtcp_port) × (c.janus_rtcp_port ≤ 65535))
        × ((1 ≤ c.janus_rtcp_listen) × (c.janus_rtcp_listen ≤ 65535))

-- The outcome has a configuration that fits its fields, if it has one.
Fits : Outcome → Type 0
Fits (Outcome.ok c) = Sized c
Fits Outcome.usage = Unit
Fits Outcome.invalid = Unit
Fits (Outcome.exits code) = Unit

next-Fits :
    (n : ℕ) (rest : List (List ℕ)) (step : Step)
    → Round rest step
    → ((c : AppConfig) → Sized c → (args : List (List ℕ)) → Fits (parse_arguments n c args))
    → Fits (elim step [
      | Step.go_on c' rest' ↦ parse_arguments n c' rest'
      | Step.end outcome ↦ outcome
    ])
unfolding Round Fits
next-Fits n rest (Step.go_on c' rest') r again = again c' r.0 rest'
next-Fits n rest (Step.end (Outcome.ok c)) r again = r
next-Fits n rest (Step.end Outcome.usage) r again = tt
next-Fits n rest (Step.end Outcome.invalid) r again = tt
next-Fits n rest (Step.end (Outcome.exits code)) r again = tt

parse_arguments-Fits :
    (n : ℕ) (c : AppConfig) → Sized c → (args : List (List ℕ)) → Fits (parse_arguments n c args)
unfolding parse_arguments Fits
parse_arguments-Fits zero c v [] = v
parse_arguments-Fits (suc n) c v [] = v
parse_arguments-Fits zero c v (arg ∷ rest) = v
parse_arguments-Fits (suc n) c v (arg ∷ rest) =
    next-Fits n rest (parse_argument c arg rest) (parse_argument-Round c v arg rest)
      (λ c' v' args. parse_arguments-Fits n c' v' args)

defaults-Sized : (build : Build) → Sized (app_config_defaults build)
unfolding app_config_defaults
defaults-Sized Build.native = (
  omega arith,
  omega arith,
  omega arith,
  omega arith,
  omega arith,
  omega arith,
  omega arith,
  omega arith,
  omega arith,
  omega arith,
)
defaults-Sized Build.libpeer = (
  omega arith,
  omega arith,
  omega arith,
  omega arith,
  omega arith,
  omega arith,
  omega arith,
  omega arith,
  omega arith,
  omega arith,
)
defaults-Sized Build.janus = (
  omega arith,
  omega arith,
  omega arith,
  omega arith,
  omega arith,
  omega arith,
  omega arith,
  omega arith,
  omega arith,
  omega arith,
)

-- The test of the Janus ports, in every build but one `true`.
abbrev port_test : Build → AppConfig → Bool
port_test Build.native c = true
port_test Build.libpeer c = true
port_test Build.janus c = has_ports c

-- The last test.
check_ports : Build → AppConfig → Outcome
check_ports build c = if port_test build c then Outcome.ok c else Outcome.invalid

check_ports_lem :
    (build : Build) (c : AppConfig)
    → ◌≡◌ {A = Outcome}
        (elim build [
          | Build.native ↦ Outcome.ok c
          | Build.libpeer ↦ Outcome.ok c
          | Build.janus ↦ if has_ports c then Outcome.ok c else Outcome.invalid
        ])
        (check_ports build c)
unfolding check_ports
check_ports_lem Build.native c = refl
check_ports_lem Build.libpeer c = refl
check_ports_lem Build.janus c = refl

check_ports_cases :
    (build : Build) (c c' : AppConfig)
    → check_ports build c ≡ Outcome.ok c'
    → (c ≡ c') × (port_test build c ≡ true)
unfolding check_ports
check_ports_cases build c c' h = elim (Bool-cases (port_test build c)) [
  | inl e ↦
      let accepted : check_ports build c ≡ Outcome.ok c = rw (check_ports, e) refl in
      (cc (accepted, h), e)
  | inr e ↦
      let refused : check_ports build c ≡ Outcome.invalid = rw (check_ports, e) refl in
      cc (refused, h)
]

check_cases :
    (build : Build) (c c' : AppConfig)
    → check build c ≡ Outcome.ok c'
    → (c ≡ c')
      × (in_range c ≡ true)
      × (list_eq c.webrtc_backend (backend build) ≡ true)
      × (port_test build c ≡ true)
unfolding check
check_cases build c c' h = elim (Bool-cases (in_range c)) [
  | inr e ↦ let refused : check build c ≡ Outcome.invalid = rw (check, e) refl in cc (refused, h)
  | inl e ↦ elim (Bool-cases (list_eq c.webrtc_backend (backend build))) [
    | inr f ↦
        let refused : check build c ≡ Outcome.invalid = rw (check, e, f) refl in cc (refused, h)
    | inl f ↦
        let last : check build c ≡ check_ports build c =
          rw (check, e, f) (check_ports_lem build c) in
        let (same, ports) = check_ports_cases build c c' (sym last ∙ h) in (same, e, f, ports)
  ]
]

tests_ports :
    (build : Build) (c : AppConfig)
    → build ≡ Build.janus
    → port_test build c ≡ true
    → has_ports c ≡ true
tests_ports Build.native c e h = cc e
tests_ports Build.libpeer c e h = cc e
tests_ports Build.janus c e h = h

usable :
    (build : Build) (c : AppConfig)
    → Sized c
    → in_range c ≡ true
    → list_eq c.webrtc_backend (backend build) ≡ true
    → port_test build c ≡ true
    → IsUsable build c
unfolding in_range has_ports
usable build c v range transport ports = record {
  width = (ground arith, ground arith);
  height = (ground arith, ground arith);
  fps = (ground arith, ground arith);
  http_port = (ground arith, omega arith);
  udp_base_port = (ground arith, omega arith);
  bitrate_kbps = (ground arith, v.3);
  keyframe_seconds = (ground arith, v.4);
  transport = list_eq-eq c.webrtc_backend (backend build) transport;
  janus_ports = λ e.
      let some_ports : has_ports c ≡ true = tests_ports build c e ports in
      (
        (ground (arith, some_ports), omega (arith, v.7)),
        (ground (arith, some_ports), omega (arith, v.8)),
        (ground (arith, some_ports), omega (arith, v.9)),
      );
}

-- Whatever the command line is, if it is accepted, then the program starts with a picture of 2 to
-- 4096 pixels each way, 1 to 120 frames per second, ports, a bitrate and a keyframe interval that are
-- positive and fit their fields, and the transport that it is compiled for.
pub app_config_parse-IsUsable :
    (build : Build) (arguments : List (List ℕ)) (c : AppConfig)
    → app_config_parse build (app_config_defaults build) arguments ≡ Outcome.ok c
    → IsUsable build c
unfolding app_config_parse Fits and_check
app_config_parse-IsUsable build arguments c h =
    let start = app_config_defaults build in
    from (parse_arguments (length arguments) start arguments)
      (parse_arguments-Fits (length arguments) start (defaults-Sized build) arguments) h
  where
    from : (o : Outcome) → Fits o → and_check build o ≡ Outcome.ok c → IsUsable build c
    from (Outcome.ok c') v h =
        let (same, range, transport, ports) = check_cases build c' c h in
        subst (IsUsable build) same (usable build c' v range transport ports)
    from Outcome.usage v h = cc h
    from Outcome.invalid v h = cc h
    from (Outcome.exits code) v h = cc h
