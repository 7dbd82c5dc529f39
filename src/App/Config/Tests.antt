-- ===== src/App/Config/Tests.antt =====
-- Command lines of src/app/app_config.c.
use ideal_broccoli.Base.{◌≡◌, refl, some, [], ◌∷◌, arith, text}
use ideal_broccoli.Base.Strtol.{digits, strtol}
use ideal_broccoli.App.Config.{
  Build, AppConfig, Outcome, app_config_defaults, split_eq, match_opt, parse_long, on_match, store,
  match_more, match_options, parse_argument, parse_arguments, in_range, check, app_config_parse,
}
use ideal_broccoli.App.Config.Ranges.{Sized}
use ideal_broccoli.App.Config.Loop.{parse_arguments_enough}
use ideal_broccoli.App.Config.Usable.{IsUsable, app_config_parse-IsUsable}
use ideal_broccoli.App.Config.Roundtrip.{arguments, app_config_parse-arguments}

abbrev defaults : AppConfig
defaults = app_config_defaults Build.native

sized : Sized defaults
unfolding app_config_defaults
sized = (
  omega arith,
  omega arith,
  omega arith,
  omega arith,
  omega arith,
  omega arith,
  omega arith,
  omega arith,
  omega arith,
  omega arith,
)

parse_arguments_enough_example :
    parse_arguments 2 defaults (text "-W" ∷ text "1280" ∷ [])
    ≡ parse_arguments 7 defaults (text "-W" ∷ text "1280" ∷ [])
parse_arguments_enough_example =
    parse_arguments_enough 2 7 defaults sized (text "-W" ∷ text "1280" ∷ []) (omega arith)
      (omega arith)

-- A port behind the range of its field is cut to 16 bits: 65616 is taken as 80.
wrapped_port :
    app_config_parse Build.native defaults (text "--http-port=65616" ∷ [])
    ≡ Outcome.ok (record defaults { http_port = 80 })
unfolding app_config_parse parse_argument match_options on_match match_opt split_eq store parse_long
    strtol digits check in_range app_config_defaults
wrapped_port = refl

app_config_parse-IsUsable_example : IsUsable Build.native (record defaults { http_port = 80 })
app_config_parse-IsUsable_example =
    app_config_parse-IsUsable Build.native (text "--http-port=65616" ∷ [])
      (record defaults { http_port = 80 }) wrapped_port

fitting : Sized (record defaults { http_port = 80 })
fitting =
    (sized.0, sized.1, sized.2, sized.3, sized.4, omega arith, sized.6, sized.7, sized.8, sized.9)

app_config_parse-arguments_example :
    app_config_parse Build.native defaults (arguments (record defaults { http_port = 80 }))
    ≡ Outcome.ok (record defaults { http_port = 80 })
app_config_parse-arguments_example =
    app_config_parse-arguments Build.native (record defaults { http_port = 80 }) fitting
      app_config_parse-IsUsable_example

missing_value : app_config_parse Build.native defaults (text "-b" ∷ []) ≡ Outcome.exits 2
unfolding app_config_parse parse_argument match_options on_match match_opt split_eq match_more
missing_value = refl

-- A number without a digit is not refused: `strtol` makes 0 of the empty text.
empty_number : parse_long [] ≡ some 0
unfolding parse_long strtol
empty_number = refl
