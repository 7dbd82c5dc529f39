-- ===== src/App/Config/Ranges.antt =====
-- The rounds of `app_config_parse` in src/app/app_config.c: what each stores fits its field, and
-- each takes an argument at least.
use ideal_broccoli.Base.{
  ℕ, ◌^◌, ◌≤◌, ◌<◌, Bool, true, false, not, ◌&&◌, inl, inr, Option, none, some, Option-cases, List,
  [], ◌∷◌, arith, leb, if◌then◌else◌, length, list_eq, text,
}
use ideal_broccoli.App.Config.{
  AppConfig, Match, Step, Outcome, uint16, uint32, split_eq, next_value, match_opt, on_match,
  parse_long, store, is_backend, match_more, match_options,
}

-- The numbers are those of the fields' types.
abbrev pub Sized : AppConfig → Type 0
Sized c =
    (c.width < 2 ^ 32)
    × (c.height < 2 ^ 32)
    × (c.fps < 2 ^ 32)
    × (c.bitrate_kbps < 2 ^ 32)
    × (c.keyframe_seconds < 2 ^ 32)
    × (c.http_port < 2 ^ 16)
    × (c.udp_base_port < 2 ^ 16)
    × (c.janus_rtp_port < 2 ^ 16)
    × (c.janus_rtcp_port < 2 ^ 16)
    × (c.janus_rtcp_listen < 2 ^ 16)

-- A round that takes its arguments from `rest` leaves no more than that.
unfoldable pub Round : List (List ℕ) → Step → Type 0
Round rest (Step.go_on c rest') = Sized c × (length rest' ≤ length rest)
Round rest (Step.end (Outcome.ok c)) = Sized c
Round rest (Step.end Outcome.usage) = Unit
Round rest (Step.end Outcome.invalid) = Unit
Round rest (Step.end (Outcome.exits code)) = Unit

Takes : List (List ℕ) → Match → Type 0
Takes rest Match.differs = Unit
Takes rest (Match.matched value rest') = length rest' ≤ length rest
Takes rest Match.missing = Unit

next_value-Takes : (rest : List (List ℕ)) → Takes rest (next_value rest)
unfolding next_value Takes
next_value-Takes [] = tt
next_value-Takes (value ∷ rest) = omega arith

match_opt-Takes :
    (arg : List ℕ) (short_name : Option (List ℕ)) (long_name : List ℕ) (rest : List (List ℕ))
    → Takes rest (match_opt arg short_name long_name rest)
unfolding match_opt Takes
match_opt-Takes arg short_name long_name rest =
    let (head, value) = split_eq arg in
    let matched_short : Bool = elim short_name [ none ↦ false | some name ↦ list_eq head name ] in
    let found : Match = elim value [ none ↦ next_value rest | some v ↦ Match.matched v rest ] in
    choose (leb 64 (length head))
      (if not matched_short && not (list_eq head long_name) then Match.differs else found)
      (choose (not matched_short && not (list_eq head long_name)) found (from value))
  where
    from :
        (value : Option (List ℕ))
        → Takes rest (elim value [ none ↦ next_value rest | some v ↦ Match.matched v rest ])
    from none = next_value-Takes rest
    from (some v) = omega arith

    choose : (b : Bool) (m : Match) → Takes rest m → Takes rest (if b then Match.differs else m)
    choose true m h = tt
    choose false m h = h

module _ (rest : List (List ℕ)) where
  on_match-Round :
      (m : Match) (body : List ℕ → List (List ℕ) → Step) (others : Step)
      → Takes rest m
      → ((value : List ℕ) (rest' : List (List ℕ))
          → length rest' ≤ length rest
          → Round rest (body value rest'))
      → Round rest others
      → Round rest (on_match m body others)
  unfolding on_match Takes Round
  on_match-Round Match.differs body others takes each otherwise = otherwise
  on_match-Round (Match.matched value rest') body others takes each otherwise =
      each value rest' takes
  on_match-Round Match.missing body others takes each otherwise = tt

  store-Round :
      (set_field : ℕ → AppConfig)
      → ((n : ℕ) → Sized (set_field n))
      → (value : List ℕ) (rest' : List (List ℕ)) → length rest' ≤ length rest
      → Round rest (store set_field value rest')
  unfolding store Round
  store-Round set_field sized value rest' short = elim (Option-cases (parse_long value)) [
    | inl e ↦ rw (store, e) tt
    | inr (n, e) ↦ rw (store, e) (sized n, short)
  ]

  pub if-Round :
      (b : Bool) (x y : Step) → Round rest x → Round rest y → Round rest (if b then x else y)
  if-Round true x y h k = h
  if-Round false x y h k = k

module _ (c : AppConfig) (v : Sized c) (arg : List ℕ) (rest : List (List ℕ)) where
  option-Round :
      (short_name : Option (List ℕ)) (long_name : List ℕ) (body : List ℕ → List (List ℕ) → Step)
      (others : Step)
      → ((value : List ℕ) (rest' : List (List ℕ))
          → length rest' ≤ length rest
          → Round rest (body value rest'))
      → Round rest others
      → Round rest (on_match (match_opt arg short_name long_name rest) body others)
  option-Round short_name long_name body others each otherwise =
      on_match-Round rest (match_opt arg short_name long_name rest) body others
        (match_opt-Takes arg short_name long_name rest) each otherwise

  match_more-Round : Round rest (match_more c arg rest)
  unfolding match_more Round is_backend
  match_more-Round =
      option-Round none (text "--webrtc") _ _
        (λ value rest' short.
          if-Round rest (is_backend value) (Step.go_on (record c { webrtc_backend = value }) rest')
            (Step.end Outcome.invalid) (v, short) tt)
        (option-Round none (text "--janus-host") _ _ (λ value rest' short. (v, short))
          (option-Round none (text "--janus-rtp-port") _ _
            (store-Round rest (λ n. record c { janus_rtp_port = uint16 n })
              (λ n. (v.0, v.1, v.2, v.3, v.4, v.5, v.6, omega arith, v.8, v.9)))
            (option-Round none (text "--janus-rtcp-port") _ _
              (store-Round rest (λ n. record c { janus_rtcp_port = uint16 n })
                (λ n. (v.0, v.1, v.2, v.3, v.4, v.5, v.6, v.7, omega arith, v.9)))
              (option-Round none (text "--janus-rtcp-listen") _ _
                (store-Round rest (λ n. record c { janus_rtcp_listen = uint16 n })
                  (λ n. (v.0, v.1, v.2, v.3, v.4, v.5, v.6, v.7, v.8, omega arith)))
                (option-Round (some (text "-b")) (text "--bitrate") _ _
                  (store-Round rest (λ n. record c { bitrate_kbps = uint32 n })
                    (λ n. (v.0, v.1, v.2, omega arith, v.4, v.5, v.6, v.7, v.8, v.9)))
                  (option-Round (some (text "-K")) (text "--keyframe") _ _
                    (store-Round rest (λ n. record c { keyframe_seconds = uint32 n })
                      (λ n. (v.0, v.1, v.2, v.3, omega arith, v.5, v.6, v.7, v.8, v.9)))
                    (option-Round (some (text "-e")) (text "--encoder") _ _
                      (λ value rest' short. (v, short)) (tt))))))))

  pub match_options-Round : Round rest (match_options c arg rest)
  unfolding match_options Round
  match_options-Round =
      option-Round (some (text "-d")) (text "--device") _ _ (λ value rest' short. (v, short))
        (option-Round (some (text "-W")) (text "--width") _ _
          (store-Round rest (λ n. record c { width = uint32 n })
            (λ n. (omega arith, v.1, v.2, v.3, v.4, v.5, v.6, v.7, v.8, v.9)))
          (option-Round (some (text "-H")) (text "--height") _ _
            (store-Round rest (λ n. record c { height = uint32 n })
              (λ n. (v.0, omega arith, v.2, v.3, v.4, v.5, v.6, v.7, v.8, v.9)))
            (option-Round (some (text "-F")) (text "--fps") _ _
              (store-Round rest (λ n. record c { fps = uint32 n })
                (λ n. (v.0, v.1, omega arith, v.3, v.4, v.5, v.6, v.7, v.8, v.9)))
              (option-Round (some (text "-l")) (text "--listen") _ _
                (λ value rest' short. (v, short))
                (option-Round (some (text "-p")) (text "--http-port") _ _
                  (store-Round rest (λ n. record c { http_port = uint16 n })
                    (λ n. (v.0, v.1, v.2, v.3, v.4, omega arith, v.6, v.7, v.8, v.9)))
                  (option-Round (some (text "-u")) (text "--udp-port") _ _
                    (store-Round rest (λ n. record c { udp_base_port = uint16 n })
                      (λ n. (v.0, v.1, v.2, v.3, v.4, v.5, omega arith, v.7, v.8, v.9)))
                    (match_more-Round)))))))
