-- ===== src/App/Config/Accepts.antt =====
-- The tests of `app_config_parse` in src/app/app_config.c pass a usable configuration.
use ideal_broccoli.Base.{
  ◌≡◌, refl, ap, ◌∙◌, true, false, ◌||◌, arith, ltb, ◌==◌, if◌then◌else◌, list_eq, list_eq_refl,
}
use ideal_broccoli.App.Config.{Build, AppConfig, Outcome, backend, in_range, has_ports, check}
use ideal_broccoli.App.Config.Usable.{IsUsable}

in_range_lem : (build : Build) (c : AppConfig) → IsUsable build c → in_range c ≡ true
unfolding in_range
in_range_lem build c u =
    let size : (ltb c.width 2 || ltb 4096 c.width || ltb c.height 2 || ltb 4096 c.height) ≡ false =
      ground (arith, u.width.0, u.width.1, u.height.0, u.height.1) in
    let rates : (c.fps == 0) ≡ false = ground (arith, u.fps.0) in
    let fast : ltb 120 c.fps ≡ false = ground (arith, u.fps.1) in
    let http : (c.http_port == 0) ≡ false = ground (arith, u.http_port.0) in
    let udp : (c.udp_base_port == 0) ≡ false = ground (arith, u.udp_base_port.0) in
    let bitrate : (c.bitrate_kbps == 0) ≡ false = ground (arith, u.bitrate_kbps.0) in
    let keyframe : (c.keyframe_seconds == 0) ≡ false = ground (arith, u.keyframe_seconds.0) in
    ground (arith, size, rates, fast, http, udp, bitrate, keyframe)

last_test :
    (build : Build) (c : AppConfig)
    → IsUsable build c
    → ◌≡◌ {A = Outcome}
        (elim build [
          | Build.native ↦ Outcome.ok c
          | Build.libpeer ↦ Outcome.ok c
          | Build.janus ↦ if has_ports c then Outcome.ok c else Outcome.invalid
        ])
        (Outcome.ok c)
unfolding has_ports
last_test Build.native c u = refl
last_test Build.libpeer c u = refl
last_test Build.janus c u =
    let (rtp, rtcp, listen) = u.janus_ports refl in
    let a : (c.janus_rtp_port == 0) ≡ false = ground (arith, rtp.0) in
    let b : (c.janus_rtcp_port == 0) ≡ false = ground (arith, rtcp.0) in
    let d : (c.janus_rtcp_listen == 0) ≡ false = ground (arith, listen.0) in simp (a, b, d) refl

pub check_lem : (build : Build) (c : AppConfig) → IsUsable build c → check build c ≡ Outcome.ok c
unfolding check
check_lem build c u =
    let transport : list_eq c.webrtc_backend (backend build) ≡ true =
      ap (λ x. list_eq x (backend build)) u.transport ∙ list_eq_refl (backend build) in
    rw (check, in_range_lem build c u, transport) (last_test build c u)
