-- ===== src/App/Config/Loop.antt =====
-- The loop of `app_config_parse` in src/app/app_config.c comes to an end.
use ideal_broccoli.Base.{
  ℕ, zero, suc, ◌≤◌, ◌≡◌, refl, true, ◌||◌, List, [], ◌∷◌, arith, if◌then◌else◌, length, list_eq,
  text,
}
use ideal_broccoli.App.Config.{
  AppConfig, Outcome, Step, parse_argument, match_options, parse_arguments,
}
use ideal_broccoli.App.Config.Ranges.{Sized, Round, if-Round, match_options-Round}

pub parse_argument-Round :
    (c : AppConfig)
    → Sized c
    → (arg : List ℕ) (rest : List (List ℕ)) → Round rest (parse_argument c arg rest)
unfolding parse_argument Round
parse_argument-Round c v arg rest =
    let others = match_options c arg rest in
    let verbose = list_eq arg (text "-v") || list_eq arg (text "--verbose") in
    let from_verbose = if verbose then Step.go_on (record c { verbose = true }) rest else others in
    let test = list_eq arg (text "-t") || list_eq arg (text "--test") in
    let from_test =
      if test then Step.go_on (record c { use_test_source = true }) rest else from_verbose in
    let version = list_eq arg (text "-V") || list_eq arg (text "--version") in
    let from_version = if version then Step.end (Outcome.exits 0) else from_test in
    if-Round rest (list_eq arg (text "-h") || list_eq arg (text "--help")) (Step.end Outcome.usage)
      from_version tt
      (if-Round rest version (Step.end (Outcome.exits 0)) from_test tt (
        if-Round rest test (Step.go_on (record c { use_test_source = true }) rest) from_verbose
          (v, omega arith)
          (if-Round rest verbose (Step.go_on (record c { verbose = true }) rest) others
            (v, omega arith) (match_options-Round c v arg rest))))

-- A number of rounds is enough when it is that of the arguments.
next-enough :
    (n m : ℕ) (rest : List (List ℕ)) (step : Step)
    → Round rest step
    → length rest ≤ n
    → length rest ≤ m
    → ((c : AppConfig)
        → Sized c
        → (args : List (List ℕ)) → length args ≤ n
        → length args ≤ m
        → parse_arguments n c args ≡ parse_arguments m c args)
    → ◌≡◌ {A = Outcome}
        (elim step [
          | Step.go_on c' rest' ↦ parse_arguments n c' rest'
          | Step.end outcome ↦ outcome
        ])
        (elim step [
          | Step.go_on c' rest' ↦ parse_arguments m c' rest'
          | Step.end outcome ↦ outcome
        ])
unfolding Round
next-enough n m rest (Step.go_on c' rest') r hn hm again =
    again c' r.0 rest' (omega (arith, r.1, hn)) (omega (arith, r.1, hm))
next-enough n m rest (Step.end outcome) r hn hm again = refl

-- The loop ends by itself: with as many rounds as there are arguments or more, the outcome is the
-- same, for numbers that fit their fields at first.
pub parse_arguments_enough :
    (n m : ℕ) (c : AppConfig)
    → Sized c
    → (args : List (List ℕ)) → length args ≤ n
    → length args ≤ m
    → parse_arguments n c args ≡ parse_arguments m c args
unfolding parse_arguments
parse_arguments_enough zero zero c v [] hn hm = refl
parse_arguments_enough zero (suc m) c v [] hn hm = refl
parse_arguments_enough (suc n) zero c v [] hn hm = refl
parse_arguments_enough (suc n) (suc m) c v [] hn hm = refl
parse_arguments_enough zero m c v (arg ∷ rest) hn hm = absurd (omega (arith, hn))
parse_arguments_enough (suc n) zero c v (arg ∷ rest) hn hm = absurd (omega (arith, hm))
parse_arguments_enough (suc n) (suc m) c v (arg ∷ rest) hn hm =
    next-enough n m rest (parse_argument c arg rest) (parse_argument-Round c v arg rest)
      (omega (arith, hn)) (omega (arith, hm)) (λ c' v' args. parse_arguments_enough n m c' v' args)
