-- ===== src/App/Config/Options.antt =====
-- One round of `app_config_parse` in src/app/app_config.c, for each option in full.
use ideal_broccoli.Base.{
  ℕ, suc, ◌%◌, ◌^◌, ◌<◌, ◌≡◌, refl, ap, true, some, List, ◌∷◌, arith, if◌then◌else◌, text,
}
use ideal_broccoli.App.Config.{
  AppConfig, Outcome, Step, parse_long, store, is_backend, on_match, match_opt, next_value,
  split_eq, match_more, match_options, parse_argument, parse_arguments,
}
use ideal_broccoli.App.Config.Decimal.{decimal, parse_long-decimal}

store_lem :
    (set_field : ℕ → AppConfig) (w k : ℕ) (v : List ℕ) (rest : List (List ℕ))
    → parse_long v ≡ some k
    → k % w ≡ k
    → store (λ x. set_field (x % w)) v rest ≡ Step.go_on (set_field k) rest
unfolding store
store_lem set_field w k v rest e small =
    rw (store, e) (ap (λ x. Step.go_on (set_field x) rest) small)

-- What a round's end makes of the loop.
abbrev proceed : ℕ → Step → Outcome
proceed n step = elim step [
  | Step.go_on c' rest' ↦ parse_arguments n c' rest'
  | Step.end outcome ↦ outcome
]

module _ (n : ℕ) (c : AppConfig) (rest : List (List ℕ)) where
  pub read_device :
      (v : List ℕ)
      → parse_arguments (suc n) c (text "--device" ∷ v ∷ rest)
        ≡ parse_arguments n (record c { device = v }) rest
  unfolding parse_arguments parse_argument match_options match_more match_opt on_match next_value
      split_eq
  read_device v = refl

  pub read_listen :
      (v : List ℕ)
      → parse_arguments (suc n) c (text "--listen" ∷ v ∷ rest)
        ≡ parse_arguments n (record c { listen = v }) rest
  unfolding parse_arguments parse_argument match_options match_more match_opt on_match next_value
      split_eq
  read_listen v = refl

  pub read_janus_host :
      (v : List ℕ)
      → parse_arguments (suc n) c (text "--janus-host" ∷ v ∷ rest)
        ≡ parse_arguments n (record c { janus_host = v }) rest
  unfolding parse_arguments parse_argument match_options match_more match_opt on_match next_value
      split_eq
  read_janus_host v = refl

  pub read_encoder :
      (v : List ℕ)
      → parse_arguments (suc n) c (text "--encoder" ∷ v ∷ rest)
        ≡ parse_arguments n (record c { encoder = v }) rest
  unfolding parse_arguments parse_argument match_options match_more match_opt on_match next_value
      split_eq
  read_encoder v = refl

  pub read_webrtc :
      (v : List ℕ)
      → is_backend v ≡ true
      → parse_arguments (suc n) c (text "--webrtc" ∷ v ∷ rest)
        ≡ parse_arguments n (record c { webrtc_backend = v }) rest
  unfolding parse_arguments parse_argument match_options match_more match_opt on_match next_value
      split_eq
  read_webrtc v h =
      ap
        (λ b. proceed n (
          if b
          then Step.go_on (record c { webrtc_backend = v }) rest
          else Step.end Outcome.invalid))
        h

  pub read_width :
      (k : ℕ)
      → k < 2 ^ 32
      → parse_arguments (suc n) c (text "--width" ∷ decimal k ∷ rest)
        ≡ parse_arguments n (record c { width = k }) rest
  unfolding parse_arguments parse_argument match_options match_more match_opt on_match next_value
      split_eq
  read_width k small = ap (proceed n) (
      store_lem (λ x. record c { width = x }) (2 ^ 32) k (decimal k) rest
        (parse_long-decimal k (omega (arith, small))) (omega (arith, small)))

  pub read_height :
      (k : ℕ)
      → k < 2 ^ 32
      → parse_arguments (suc n) c (text "--height" ∷ decimal k ∷ rest)
        ≡ parse_arguments n (record c { height = k }) rest
  unfolding parse_arguments parse_argument match_options match_more match_opt on_match next_value
      split_eq
  read_height k small = ap (proceed n) (
      store_lem (λ x. record c { height = x }) (2 ^ 32) k (decimal k) rest
        (parse_long-decimal k (omega (arith, small))) (omega (arith, small)))

  pub read_fps :
      (k : ℕ)
      → k < 2 ^ 32
      → parse_arguments (suc n) c (text "--fps" ∷ decimal k ∷ rest)
        ≡ parse_arguments n (record c { fps = k }) rest
  unfolding parse_arguments parse_argument match_options match_more match_opt on_match next_value
      split_eq
  read_fps k small = ap (proceed n) (
      store_lem (λ x. record c { fps = x }) (2 ^ 32) k (decimal k) rest
        (parse_long-decimal k (omega (arith, small))) (omega (arith, small)))

  pub read_http_port :
      (k : ℕ)
      → k < 2 ^ 16
      → parse_arguments (suc n) c (text "--http-port" ∷ decimal k ∷ rest)
        ≡ parse_arguments n (record c { http_port = k }) rest
  unfolding parse_arguments parse_argument match_options match_more match_opt on_match next_value
      split_eq
  read_http_port k small = ap (proceed n) (
      store_lem (λ x. record c { http_port = x }) (2 ^ 16) k (decimal k) rest
        (parse_long-decimal k (omega (arith, small))) (omega (arith, small)))

  pub read_udp_base_port :
      (k : ℕ)
      → k < 2 ^ 16
      → parse_arguments (suc n) c (text "--udp-port" ∷ decimal k ∷ rest)
        ≡ parse_arguments n (record c { udp_base_port = k }) rest
  unfolding parse_arguments parse_argument match_options match_more match_opt on_match next_value
      split_eq
  read_udp_base_port k small = ap (proceed n) (
      store_lem (λ x. record c { udp_base_port = x }) (2 ^ 16) k (decimal k) rest
        (parse_long-decimal k (omega (arith, small))) (omega (arith, small)))

  pub read_bitrate_kbps :
      (k : ℕ)
      → k < 2 ^ 32
      → parse_arguments (suc n) c (text "--bitrate" ∷ decimal k ∷ rest)
        ≡ parse_arguments n (record c { bitrate_kbps = k }) rest
  unfolding parse_arguments parse_argument match_options match_more match_opt on_match next_value
      split_eq
  read_bitrate_kbps k small = ap (proceed n) (
      store_lem (λ x. record c { bitrate_kbps = x }) (2 ^ 32) k (decimal k) rest
        (parse_long-decimal k (omega (arith, small))) (omega (arith, small)))

  pub read_keyframe_seconds :
      (k : ℕ)
      → k < 2 ^ 32
      → parse_arguments (suc n) c (text "--keyframe" ∷ decimal k ∷ rest)
        ≡ parse_arguments n (record c { keyframe_seconds = k }) rest
  unfolding parse_arguments parse_argument match_options match_more match_opt on_match next_value
      split_eq
  read_keyframe_seconds k small = ap (proceed n) (
      store_lem (λ x. record c { keyframe_seconds = x }) (2 ^ 32) k (decimal k) rest
        (parse_long-decimal k (omega (arith, small))) (omega (arith, small)))

  pub read_janus_rtp_port :
      (k : ℕ)
      → k < 2 ^ 16
      → parse_arguments (suc n) c (text "--janus-rtp-port" ∷ decimal k ∷ rest)
        ≡ parse_arguments n (record c { janus_rtp_port = k }) rest
  unfolding parse_arguments parse_argument match_options match_more match_opt on_match next_value
      split_eq
  read_janus_rtp_port k small = ap (proceed n) (
      store_lem (λ x. record c { janus_rtp_port = x }) (2 ^ 16) k (decimal k) rest
        (parse_long-decimal k (omega (arith, small))) (omega (arith, small)))

  pub read_janus_rtcp_port :
      (k : ℕ)
      → k < 2 ^ 16
      → parse_arguments (suc n) c (text "--janus-rtcp-port" ∷ decimal k ∷ rest)
        ≡ parse_arguments n (record c { janus_rtcp_port = k }) rest
  unfolding parse_arguments parse_argument match_options match_more match_opt on_match next_value
      split_eq
  read_janus_rtcp_port k small = ap (proceed n) (
      store_lem (λ x. record c { janus_rtcp_port = x }) (2 ^ 16) k (decimal k) rest
        (parse_long-decimal k (omega (arith, small))) (omega (arith, small)))

  pub read_janus_rtcp_listen :
      (k : ℕ)
      → k < 2 ^ 16
      → parse_arguments (suc n) c (text "--janus-rtcp-listen" ∷ decimal k ∷ rest)
        ≡ parse_arguments n (record c { janus_rtcp_listen = k }) rest
  unfolding parse_arguments parse_argument match_options match_more match_opt on_match next_value
      split_eq
  read_janus_rtcp_listen k small = ap (proceed n) (
      store_lem (λ x. record c { janus_rtcp_listen = x }) (2 ^ 16) k (decimal k) rest
        (parse_long-decimal k (omega (arith, small))) (omega (arith, small)))

module _ (n : ℕ) (c : AppConfig) (rest : List (List ℕ)) where
  pub read_test :
      parse_arguments (suc n) c (text "--test" ∷ rest)
      ≡ parse_arguments n (record c { use_test_source = true }) rest
  unfolding parse_arguments parse_argument
  read_test = refl

  pub read_verbose :
      parse_arguments (suc n) c (text "--verbose" ∷ rest)
      ≡ parse_arguments n (record c { verbose = true }) rest
  unfolding parse_arguments parse_argument
  read_verbose = refl
