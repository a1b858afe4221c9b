-- ===== src/Web/Login/Tests.antt =====
-- Runs of the form, and examples of its theorems.
use helio.Prelude.{◌<◌, ◌≡◌, refl, some, List, [], ◌∷◌, length, arith}
use helio.Js.Text.{codes, trim, drop_end, drop_while, is_space}
use helio.Web.Fields.{numeral, digits_from, pad_two}
use helio.Web.Login.{
  start, Event, types_username, types_password, submits, ticks, answers, refused, is_possible,
  handle, run, submit, settle, countdown,
}
use helio.Web.Login.Laws.{IsLocked, start-IsLocked, run-IsLocked, seconds, refused_waits}

login_code : Unit {0}
unfolding trim drop_end drop_while is_space numeral digits_from pad_two start is_possible handle run
    submit settle countdown seconds
login_code = tt

-- The visitor sends the form twice at once.
abbrev attempt : List Event
attempt = types_username (codes " ada ") ∷ types_password (codes "secret") ∷ submits ∷ submits ∷ []

attempt_test : (run attempt start).sent ≡ (codes "ada", codes "secret") ∷ []
unfolding login_code
attempt_test = refl

-- Too many attempts: the form is sent again after two seconds only.
abbrev hasty : List Event
hasty = submits ∷ ticks ∷ submits ∷ []

waited_test :
    length
      (run
        (answers (refused 429 (some 2)) ∷ submits ∷ ticks ∷ ticks ∷ submits ∷ [])
        (run attempt start)).sent
    ≡ 2
unfolding login_code
waited_test = refl

countdown_test : countdown 65 ≡ codes "1:05"
unfolding login_code
countdown_test = refl

attempt-IsLocked : IsLocked (run attempt start)
attempt-IsLocked = run-IsLocked attempt start start-IsLocked

hasty_bound : seconds hasty < 2
unfolding seconds
hasty_bound = omega arith

refused_waits_example :
    (run hasty (handle (answers (refused 429 (some 2))) (run attempt start))).sent
    ≡ (run attempt start).sent
refused_waits_example =
    refused_waits hasty (some 2) (run attempt start) attempt-IsLocked hasty_bound
