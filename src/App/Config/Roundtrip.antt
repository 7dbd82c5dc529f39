-- ===== src/App/Config/Roundtrip.antt =====
-- A configuration, written as the command line that src/app/app_config.c reads back.
use ideal_broccoli.Base.{
  ℕ, zero, suc, ◌≡◌, refl, ap, ap₂, ◌∙◌, Bool, true, false, List, [], ◌∷◌, length, text,
}
use ideal_broccoli.App.Config.{
  Build, AppConfig, Outcome, app_config_defaults, backend, is_backend, parse_arguments, and_check,
  app_config_parse,
}
use ideal_broccoli.App.Config.Decimal.{decimal}
use ideal_broccoli.App.Config.Ranges.{Sized}
use ideal_broccoli.App.Config.Usable.{IsUsable}
use ideal_broccoli.App.Config.Options.{
  read_device, read_listen, read_janus_host, read_encoder, read_webrtc, read_width, read_height,
  read_fps, read_http_port, read_udp_base_port, read_bitrate_kbps, read_keyframe_seconds,
  read_janus_rtp_port, read_janus_rtcp_port, read_janus_rtcp_listen, read_test, read_verbose,
}
use ideal_broccoli.App.Config.Accepts.{check_lem}

-- The numbers of a configuration, each behind its option.
abbrev pub number_arguments : AppConfig → List (List ℕ)
number_arguments c =
    text "--width"
    ∷ decimal c.width
    ∷ text "--height"
    ∷ decimal c.height
    ∷ text "--fps"
    ∷ decimal c.fps
    ∷ text "--http-port"
    ∷ decimal c.http_port
    ∷ text "--udp-port"
    ∷ decimal c.udp_base_port
    ∷ text "--bitrate"
    ∷ decimal c.bitrate_kbps
    ∷ text "--keyframe"
    ∷ decimal c.keyframe_seconds
    ∷ text "--janus-rtp-port"
    ∷ decimal c.janus_rtp_port
    ∷ text "--janus-rtcp-port"
    ∷ decimal c.janus_rtcp_port
    ∷ text "--janus-rtcp-listen"
    ∷ decimal c.janus_rtcp_listen
    ∷ []

abbrev pub text_arguments : AppConfig → List (List ℕ)
text_arguments c =
    text "--device"
    ∷ c.device
    ∷ text "--listen"
    ∷ c.listen
    ∷ text "--janus-host"
    ∷ c.janus_host
    ∷ text "--encoder"
    ∷ c.encoder
    ∷ text "--webrtc"
    ∷ c.webrtc_backend
    ∷ number_arguments c

abbrev pub test_arguments : Bool → List (List ℕ) → List (List ℕ)
test_arguments true rest = text "--test" ∷ rest
test_arguments false rest = rest

abbrev pub verbose_arguments : Bool → List (List ℕ) → List (List ℕ)
verbose_arguments true rest = text "--verbose" ∷ rest
verbose_arguments false rest = rest

abbrev pub arguments : AppConfig → List (List ℕ)
arguments c = test_arguments c.use_test_source (verbose_arguments c.verbose (text_arguments c))

read_end : (m : ℕ) (c : AppConfig) → parse_arguments m c [] ≡ Outcome.ok c
unfolding parse_arguments
read_end zero c = refl
read_end (suc m) c = refl

-- The configuration after all options with a value.
abbrev final : AppConfig → AppConfig → AppConfig
final c0 c = record c { use_test_source = c0.use_test_source; verbose = c0.verbose }

read_numbers :
    (m : ℕ) (c0 c : AppConfig)
    → Sized c
    → parse_arguments
        (suc (suc (suc (suc (suc (suc (suc (suc (suc (suc m))))))))))
        c0
        (number_arguments c)
      ≡ Outcome.ok (record c0 {
        width = c.width;
        height = c.height;
        fps = c.fps;
        http_port = c.http_port;
        udp_base_port = c.udp_base_port;
        bitrate_kbps = c.bitrate_kbps;
        keyframe_seconds = c.keyframe_seconds;
        janus_rtp_port = c.janus_rtp_port;
        janus_rtcp_port = c.janus_rtcp_port;
        janus_rtcp_listen = c.janus_rtcp_listen;
      })
read_numbers m c0 c v =
    read_width _ _ _ c.width v.0
    ∙ read_height _ _ _ c.height v.1
    ∙ read_fps _ _ _ c.fps v.2
    ∙ read_http_port _ _ _ c.http_port v.5
    ∙ read_udp_base_port _ _ _ c.udp_base_port v.6
    ∙ read_bitrate_kbps _ _ _ c.bitrate_kbps v.3
    ∙ read_keyframe_seconds _ _ _ c.keyframe_seconds v.4
    ∙ read_janus_rtp_port _ _ _ c.janus_rtp_port v.7
    ∙ read_janus_rtcp_port _ _ _ c.janus_rtcp_port v.8
    ∙ read_janus_rtcp_listen _ _ _ c.janus_rtcp_listen v.9
    ∙ read_end m _

read_texts :
    (m : ℕ) (c0 c : AppConfig)
    → Sized c
    → is_backend c.webrtc_backend ≡ true
    → parse_arguments
        (suc (suc (suc (suc (suc (suc (suc (suc (suc (suc (suc (suc (suc (suc (suc m)))))))))))))))
        c0
        (text_arguments c)
      ≡ Outcome.ok (final c0 c)
read_texts m c0 c v known =
    read_device _ _ _ c.device
    ∙ read_listen _ _ _ c.listen
    ∙ read_janus_host _ _ _ c.janus_host
    ∙ read_encoder _ _ _ c.encoder
    ∙ read_webrtc _ _ _ c.webrtc_backend known
    ∙ read_numbers m _ c v

read_all :
    (c0 c : AppConfig) (test verbose : Bool)
    → c0.use_test_source ≡ false
    → c0.verbose ≡ false
    → Sized c
    → is_backend c.webrtc_backend ≡ true
    → let args = test_arguments test (verbose_arguments verbose (text_arguments c)) in
      parse_arguments (length args) c0 args
      ≡ Outcome.ok (record c { use_test_source = test; verbose = verbose })
read_all c0 c false false a b v known =
    read_texts 15 c0 c v known
    ∙ ap₂ (λ x y. Outcome.ok (record c { use_test_source = x; verbose = y })) a b
read_all c0 c false true a b v known =
    read_verbose 30 c0 (text_arguments c)
    ∙ read_texts 15 (record c0 { verbose = true }) c v known
    ∙ ap (λ x. Outcome.ok (record c { use_test_source = x; verbose = true })) a
read_all c0 c true false a b v known =
    read_test 30 c0 (text_arguments c)
    ∙ read_texts 15 (record c0 { use_test_source = true }) c v known
    ∙ ap (λ y. Outcome.ok (record c { use_test_source = true; verbose = y })) b
read_all c0 c true true a b v known =
    read_test 31 c0 (text "--verbose" ∷ text_arguments c)
    ∙ read_verbose 30 (record c0 { use_test_source = true }) (text_arguments c)
    ∙ read_texts 15 (record c0 { use_test_source = true; verbose = true }) c v known

known_backend : (build : Build) → is_backend (backend build) ≡ true
unfolding is_backend
known_backend Build.native = refl
known_backend Build.libpeer = refl
known_backend Build.janus = refl

-- Every configuration with which the program may start, and whose numbers fit their fields, can be
-- written as a command line, options in full and numbers in decimal, from which the program reads
-- exactly it.
pub app_config_parse-arguments :
    (build : Build) (c : AppConfig)
    → Sized c
    → IsUsable build c
    → app_config_parse build (app_config_defaults build) (arguments c) ≡ Outcome.ok c
unfolding app_config_parse and_check app_config_defaults
app_config_parse-arguments build c v u =
    ap (and_check build) (
      read_all (app_config_defaults build) c c.use_test_source c.verbose refl refl v
        (ap is_backend u.transport ∙ known_backend build))
    ∙ check_lem build c u
