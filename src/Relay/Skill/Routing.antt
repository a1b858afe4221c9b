-- ===== src/Relay/Skill/Routing.antt =====
-- app.js: which handler a request reaches.
use mathlib.Core.Bool.{false≢true}
use helio.Prelude.{sym, ◌∙◌, ◌≡◌, ◌≢◌, ◌↔◌, refl, Bool, true, false, some, arith}
use helio.Js.Text.{codes, text_eq_iff, starts_with}
use helio.Relay.Skill.{
  Envelope, package_installed, package_removed, data_store_error, can_handle, route, installed_type,
  removed_type,
}

route-first :
    (e : Envelope)
    → (route e ≡ some data_store_error) ↔ (
        (can_handle data_store_error e ≡ true)
        × (can_handle package_installed e ≡ false)
        × (can_handle package_removed e ≡ false))
unfolding route
route-first e = ground arith

Bool-false : (b : Bool) → ¬ (b ≡ true) → b ≡ false
Bool-false true h = absurd (h refl)
Bool-false false h = refl

-- The generic handler of Data Store events gets exactly those that are no installation and no removal,
-- although it accepts these two as well: they come before it.
pub route-data_store_error_iff :
    (e : Envelope)
    → (route e ≡ some data_store_error) ↔ (
        (starts_with (codes "Alexa.DataStore.") e.type ≡ true)
        × (e.type ≢ installed_type)
        × (e.type ≢ removed_type))
unfolding can_handle
route-data_store_error_iff e =
    let (to, from) = route-first e in
    let installed = text_eq_iff e.type installed_type in
    let removed = text_eq_iff e.type removed_type in
    (
      λ r. (
        (to r).0,
        (λ i. false≢true (sym (to r).1 ∙ installed.1 i)),
        (λ i. false≢true (sym (to r).2 ∙ removed.1 i)),
      ),
      λ (p, q, w).
          from (p, Bool-false _ (λ t. q (installed.0 t)), Bool-false _ (λ t. w (removed.0 t))),
    )
