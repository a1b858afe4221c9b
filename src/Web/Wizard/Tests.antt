-- ===== src/Web/Wizard/Tests.antt =====
-- A run of the wizard, and an example of its theorem.
use helio.Prelude.{◌≡◌, refl, List, [], ◌∷◌, ◌++◌, length}
use helio.Js.Text.{codes, text_eq, trim, drop_end, drop_while, is_space, starts_with}
use helio.Web.Browser.{contains}
use helio.Web.Fields.{
  at_username, at_password, at_confirm_password, at_logger_host, at_logger_serial, at_latitude,
  at_longitude, checks, integer, is_numeral, is_between, is_octet, split_on, valid_ipv4,
  valid_logger_serial, is_power_allowed, is_positive, valid_timezone, is_currency, currencies,
  decimal, replace_comma, decimal_whole, decimal_fraction, is_within, tariff_minor, tariff_limit,
  tariff_from, tariff_fraction, sort_inputs, insert_input, numeral, digits_from, text_leb,
  clear_error, includes_input, without_input,
}
use helio.Web.Fields.Toy.{ascii}
use helio.Web.Forms.{
  validate_step, validate_account, validate_logger, validate_panels, validate_location,
  valid_currency, to_bootstrap_payload, server_field_error, first_mapping, mentions,
}
use helio.Web.Wizard.{
  start, update, toggle_mppt, advance, first_invalid, submit, set_value, refused, settle, Event,
  updates, submits, answers, is_possible, handle, run,
}
use helio.Web.Wizard.Laws.{IsOrderly, run-IsOrderly, start-IsOrderly}

wizard_code : Unit {0}
unfolding checks integer is_numeral is_between is_octet split_on valid_ipv4 valid_logger_serial
    is_power_allowed is_positive valid_timezone is_currency currencies decimal replace_comma
    decimal_whole decimal_fraction is_within tariff_minor tariff_limit tariff_from tariff_fraction
    sort_inputs insert_input numeral digits_from text_leb text_eq trim drop_end drop_while is_space
    starts_with contains clear_error includes_input without_input validate_step validate_account
    validate_logger validate_panels validate_location valid_currency to_bootstrap_payload
    server_field_error first_mapping mentions update toggle_mppt advance first_invalid submit
    set_value settle is_possible handle run
wizard_code = tt

-- The visitor fills the form, step by step, and submits it twice.
abbrev filling : List Event
filling =
    updates at_username (codes "ada")
    ∷ updates at_password (codes "correct horse")
    ∷ updates at_confirm_password (codes "correct horse")
    ∷ submits
    ∷ updates at_logger_host (codes "192.0.2.1")
    ∷ updates at_logger_serial (codes "1")
    ∷ submits
    ∷ submits
    ∷ updates at_latitude (codes "0")
    ∷ updates at_longitude (codes "0")
    ∷ submits
    ∷ submits
    ∷ submits
    ∷ []

filled_test :
    ((run ascii filling (start ascii)).step ≡ 4)
    × (length (run ascii filling (start ascii)).sent ≡ 1)
unfolding wizard_code
filled_test = (refl, refl)

-- A first step without a name does not go on.
empty_test : (run ascii (submits ∷ []) (start ascii)).errors ≡ at_username ∷ at_password ∷ []
unfolding wizard_code
empty_test = refl

-- The server's refusal leads back to the field.
refused_test :
    (run ascii
      (filling
        ++ answers (refused 422 (codes "logger host refused") (codes "invalid_settings")) ∷ [])
      (start ascii)).step
    ≡ 1
unfolding wizard_code
refused_test = refl

run-IsOrderly_example : IsOrderly ascii (run ascii filling (start ascii))
run-IsOrderly_example = run-IsOrderly ascii filling (start ascii) (start-IsOrderly ascii)
