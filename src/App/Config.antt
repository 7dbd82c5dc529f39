-- ===== src/App/Config.antt =====
-- src/app/app_config.c: the command line. A text is the list of its bytes, without the one that
-- ends it; the library's `strtol` is written out for base 10. What is printed is left out.
pub mod Ranges
pub mod Loop
pub mod Usable
pub mod Decimal
pub mod Options
pub mod Accepts
pub mod Roundtrip
mod Tests
use ideal_broccoli.Base.{
  ℕ, zero, suc, ◌+◌, ◌-◌, ◌*◌, ◌%◌, ◌^◌, Bool, true, false, not, ◌&&◌, ◌||◌, Option, none, some,
  List, [], ◌∷◌, ltb, leb, ◌==◌, if◌then◌else◌, length, list_eq, text,
}
use ideal_broccoli.Base.Strtol.{strtol}

-- What the program is compiled for: neither symbol, USE_LIBPEER or USE_JANUS_TRANSPORT.
pub data Build : Type 0 where
  native : Build
  libpeer : Build
  janus : Build

pub record AppConfig : Type 0 where
  pub device : List ℕ
  pub use_test_source : Bool
  pub width : ℕ
  pub height : ℕ
  pub fps : ℕ
  pub listen : List ℕ
  pub http_port : ℕ
  pub udp_base_port : ℕ
  pub bitrate_kbps : ℕ
  pub keyframe_seconds : ℕ
  pub webrtc_backend : List ℕ
  pub janus_host : List ℕ
  pub janus_rtp_port : ℕ
  pub janus_rtcp_port : ℕ
  pub janus_rtcp_listen : ℕ
  pub encoder : List ℕ
  pub verbose : Bool

-- The name of a build's transport.
abbrev pub backend : Build → List ℕ
backend Build.native = text "native"
backend Build.libpeer = text "libpeer"
backend Build.janus = text "janus"

-- The Janus fields are there in every build; outside the Janus build they are never read.
pub app_config_defaults : Build → AppConfig
app_config_defaults build = record {
  device = text "/dev/video0";
  use_test_source = false;
  width = 640;
  height = 480;
  fps = 30;
  listen = text "0.0.0.0";
  http_port = elim build [ Build.native ↦ 8080 | Build.libpeer ↦ 8000 | Build.janus ↦ 8080 ];
  udp_base_port = 50000;
  bitrate_kbps = 2500;
  keyframe_seconds = 2;
  webrtc_backend = backend build;
  janus_host = text "127.0.0.1";
  janus_rtp_port = 5004;
  janus_rtcp_port = 5005;
  janus_rtcp_listen = 5006;
  encoder = text "auto";
  verbose = false;
}

-- A string up to its first `=`, and what stands behind that.
pub split_eq : List ℕ → List ℕ × Option (List ℕ)
split_eq [] = ([], none)
split_eq (c ∷ cs) =
    let (head, value) = split_eq cs in if c == b'=' then ([], some cs) else (c ∷ head, value)

-- `match_opt`, with the arguments behind `arg`: those that are left are part of a match.
pub data Match : Type 0 where
  differs : Match
  matched : List ℕ → List (List ℕ) → Match
  missing : Match

-- The value that stands behind an option without `=`.
next_value : List (List ℕ) → Match
next_value [] = Match.missing
next_value (value ∷ rest) = Match.matched value rest

pub match_opt : List ℕ → Option (List ℕ) → List ℕ → List (List ℕ) → Match
unfolding next_value
match_opt arg short_name long_name rest =
    let (head, value) = split_eq arg in
    let matched_short : Bool = elim short_name [ none ↦ false | some name ↦ list_eq head name ] in
    let matched_long = list_eq head long_name in
    let found : Match = elim value [ none ↦ next_value rest | some v ↦ Match.matched v rest ] in
    if leb 64 (length head)
    then Match.differs
    else if not matched_short && not matched_long
    then Match.differs
    else found

-- `none` stands for `exit(2)`.
pub parse_long : List ℕ → Option ℕ
parse_long value =
    let (minus, n, rest) = strtol value in
    if ltb 0 (length rest) || (minus && ltb 0 n) then none else some n

-- How the program goes on: 0, 1 or -1 is returned, or it exits.
pub data Outcome : Type 0 where
  ok : AppConfig → Outcome
  usage : Outcome
  invalid : Outcome
  exits : ℕ → Outcome

-- One round of the loop: on with the arguments that are left, or at an end.
pub data Step : Type 0 where
  go_on : AppConfig → List (List ℕ) → Step
  end : Outcome → Step

-- A `match_opt` in a condition: the body, or the rest of the round.
pub on_match : Match → (List ℕ → List (List ℕ) → Step) → Step → Step
on_match Match.differs body others = others
on_match (Match.matched value rest) body others = body value rest
on_match Match.missing body others = Step.end (Outcome.exits 2)

-- A body that stores a number.
pub store : (ℕ → AppConfig) → List ℕ → List (List ℕ) → Step
store set_field value rest = elim (parse_long value) [
  | none ↦ Step.end (Outcome.exits 2)
  | some n ↦ Step.go_on (set_field n) rest
]

-- Conversions to `uint16_t` and `uint32_t`.
abbrev pub uint16 : ℕ → ℕ
uint16 n = n % 2 ^ 16

abbrev pub uint32 : ℕ → ℕ
uint32 n = n % 2 ^ 32

pub is_backend : List ℕ → Bool
is_backend value =
    list_eq value (text "native") || list_eq value (text "libpeer") || list_eq value (text "janus")

-- The options with a value, from `--webrtc` on.
pub match_more : AppConfig → List ℕ → List (List ℕ) → Step
match_more config arg rest =
    let option = λ (short_name : Option (List ℕ)) (long_name : List ℕ).
      on_match (match_opt arg short_name long_name rest) in
    option none (text "--webrtc")
      (λ value rest'.
        if is_backend value
        then Step.go_on (record config { webrtc_backend = value }) rest'
        else Step.end Outcome.invalid)
      (option none (text "--janus-host")
        (λ value. Step.go_on (record config { janus_host = value }))
        (option none (text "--janus-rtp-port")
          (store λ n. record config { janus_rtp_port = uint16 n })
          (option none (text "--janus-rtcp-port")
            (store λ n. record config { janus_rtcp_port = uint16 n })
            (option none (text "--janus-rtcp-listen")
              (store λ n. record config { janus_rtcp_listen = uint16 n })
              (option (some (text "-b")) (text "--bitrate")
                (store λ n. record config { bitrate_kbps = uint32 n })
                (option (some (text "-K")) (text "--keyframe")
                  (store λ n. record config { keyframe_seconds = uint32 n })
                  (option (some (text "-e")) (text "--encoder")
                    (λ value. Step.go_on (record config { encoder = value }))
                    (Step.end Outcome.invalid))))))))

-- All options with a value, in the order of the tests.
pub match_options : AppConfig → List ℕ → List (List ℕ) → Step
match_options config arg rest =
    let option = λ (short_name : Option (List ℕ)) (long_name : List ℕ).
      on_match (match_opt arg short_name long_name rest) in
    option (some (text "-d")) (text "--device")
      (λ value. Step.go_on (record config { device = value }))
      (option (some (text "-W")) (text "--width") (store λ n. record config { width = uint32 n }) (
        option (some (text "-H")) (text "--height") (store λ n. record config { height = uint32 n })
          (option (some (text "-F")) (text "--fps") (store λ n. record config { fps = uint32 n }) (
            option (some (text "-l")) (text "--listen")
              (λ value. Step.go_on (record config { listen = value }))
              (option (some (text "-p")) (text "--http-port")
                (store λ n. record config { http_port = uint16 n })
                (option (some (text "-u")) (text "--udp-port")
                  (store λ n. record config { udp_base_port = uint16 n })
                  (match_more config arg rest)))))))

-- One round of the loop.
pub parse_argument : AppConfig → List ℕ → List (List ℕ) → Step
parse_argument config arg rest =
    if list_eq arg (text "-h") || list_eq arg (text "--help")
    then Step.end Outcome.usage
    else if list_eq arg (text "-V") || list_eq arg (text "--version")
    then Step.end (Outcome.exits 0)
    else if list_eq arg (text "-t") || list_eq arg (text "--test")
    then Step.go_on (record config { use_test_source = true }) rest
    else if list_eq arg (text "-v") || list_eq arg (text "--verbose")
    then Step.go_on (record config { verbose = true }) rest
    else match_options config arg rest

-- The loop, for as many rounds as there are arguments; each round takes one at least.
pub parse_arguments : ℕ → AppConfig → List (List ℕ) → Outcome
parse_arguments n config [] = Outcome.ok config
parse_arguments zero config (arg ∷ rest) = Outcome.ok config
parse_arguments (suc n) config (arg ∷ rest) = elim (parse_argument config arg rest) [
  | Step.go_on config' rest' ↦ parse_arguments n config' rest'
  | Step.end outcome ↦ outcome
]

pub in_range : AppConfig → Bool
in_range config = not (
    ltb config.width 2
    || ltb 4096 config.width
    || ltb config.height 2
    || ltb 4096 config.height
    || config.fps == 0
    || ltb 120 config.fps
    || config.http_port == 0
    || config.udp_base_port == 0
    || config.bitrate_kbps == 0
    || config.keyframe_seconds == 0)

pub has_ports : AppConfig → Bool
has_ports config =
    not (config.janus_rtp_port == 0 || config.janus_rtcp_port == 0 || config.janus_rtcp_listen == 0)

-- The tests behind the loop.
pub check : Build → AppConfig → Outcome
check build config =
    if not (in_range config)
    then Outcome.invalid
    else if not (list_eq config.webrtc_backend (backend build))
    then Outcome.invalid
    else elim build [
      | Build.native ↦ Outcome.ok config
      | Build.libpeer ↦ Outcome.ok config
      | Build.janus ↦ if has_ports config then Outcome.ok config else Outcome.invalid
    ]

pub and_check : Build → Outcome → Outcome
and_check build (Outcome.ok config) = check build config
and_check build Outcome.usage = Outcome.usage
and_check build Outcome.invalid = Outcome.invalid
and_check build (Outcome.exits code) = Outcome.exits code

-- The arguments are those behind the name of the program.
pub app_config_parse : Build → AppConfig → List (List ℕ) → Outcome
unfolding parse_arguments and_check
app_config_parse build config arguments =
    and_check build (parse_arguments (length arguments) config arguments)
