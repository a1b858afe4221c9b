-- ===== src/Relay/Snapshot/Laws.antt =====
-- app.js: which snapshots `parseSnapshot` returns, and that it reads every valid one.
use helio.Relay.Snapshot.{
  ◌>>◌, require, ◌>>=◌, Snapshot, snapshot_json, finite_between, status_shape, valid_date,
  is_allowed, read_fields, read_snapshot, parse_value, parse_snapshot,
}
use helio.Js.Json.{
  null, array, string, number, bool, as_string, as_bool, as_number, Json, object, find_field,
  Fields, keys,
}
use mathlib.Core.Path.{subst}
use helio.Prelude.{
  not, ltbℤ, sym, ap, ◌∙◌, ℕ, ◌≡◌, refl, Bool, true, false, Option, none, some, arith, ℤ, pos, ◌≤ℤ◌,
  ◌+◌, all,
}
use helio.Js.Number.{equals}
use helio.Js.Text.{codes, Text, text_eq}
use helio.Js.Host.{Host, Bytes}
use helio.Relay.Errors.{ok}
use helio.Relay.State.{observed_at}
use helio.Relay.State.Freshness.{IsDated}

-- A snapshot within the documented bounds, observed at `time`, at most five minutes ahead of `now`.
pub record IsSnapshot (h : Host) (now : ℕ) (s : Snapshot) (time : ℤ) : Type 0 where
  pub power : finite_between s.ac_power_w 0 1000000 ≡ true
  pub energy : finite_between s.energy_today_wh 0 100000000 ≡ true
  pub status : status_shape s.status ≡ true
  pub not_ahead : time ≤ℤ pos (now + 300000)

-- What `read_fields` found.
record IsRead (h : Host) (now : ℕ) (s : Snapshot) : Type 0 where
  time : ℤ
  text : Text
  valid : valid_date h text ≡ some time
  iso : s.observed_at ≡ h.to_iso time
  bounds : IsSnapshot h now s time

bind-eq_some {ℓ κ} :
    {A : Type ℓ} {B : Type κ} (m : Option A) (f : A → Option B) {b : B}
    → (m >>= f) ≡ some b
    → (a : A) × (m ≡ some a) × (f a ≡ some b)
bind-eq_some (some a) f h = (a, refl, h)
bind-eq_some none f h = cc

require-eq_some : (b : Bool) {u : Unit {0}} → require b ≡ some u → b ≡ true
require-eq_some true h = refl
require-eq_some false h = cc

require-some :
    (b : Bool) (found s : Snapshot) → (require b >> some found) ≡ some s → (b ≡ true) × (found ≡ s)
require-some true found s h = (refl, cc)
require-some false found s h = cc

time-bound : (now : ℕ) (time : ℤ) → not (ltbℤ (pos now) time) ≡ true → time ≤ℤ pos now
time-bound now time h = ground arith

read_fields-IsRead :
    (h : Host) (now : ℕ) (fs : Fields) (s : Snapshot)
    → read_fields h now fs ≡ some s
    → IsRead h now s
unfolding read_fields
read_fields-IsRead h now fs s e =
    let (k, allowed, e1) = bind-eq_some (require (all is_allowed (keys fs))) _ e in
    let (version, has_version, e2) =
      bind-eq_some (as_number (find_field (codes "version") fs)) _ e1 in
    let (k2, version_1, e3) = bind-eq_some (require (equals version 1)) _ e2 in
    let (power, has_power, e4) = bind-eq_some (as_number (find_field (codes "acPowerW") fs)) _ e3 in
    let (k3, power_ok, e5) = bind-eq_some (require (finite_between power 0 1000000)) _ e4 in
    let (energy, has_energy, e6) =
      bind-eq_some (as_number (find_field (codes "energyTodayWh") fs)) _ e5 in
    let (k4, energy_ok, e7) = bind-eq_some (require (finite_between energy 0 100000000)) _ e6 in
    let (stale, has_stale, e8) = bind-eq_some (as_bool (find_field (codes "stale") fs)) _ e7 in
    let (status, has_status, e9) = bind-eq_some (as_string (find_field (codes "status") fs)) _ e8 in
    let (k5, status_ok, e10) = bind-eq_some (require (status_shape status)) _ e9 in
    let (observed, has_observed, e11) =
      bind-eq_some (as_string (find_field (codes "observedAt") fs)) _ e10 in
    let (time, has_time, e12) = bind-eq_some (valid_date h observed) _ e11 in
    let found : Snapshot = record {
      observed_at = h.to_iso time;
      ac_power_w = power;
      energy_today_wh = energy;
      status = status;
      stale = stale;
    } in
    let (in_time, same) = require-some (not (ltbℤ (pos (now + 300000)) time)) found s e12 in
    record {
      time = time;
      text = observed;
      valid = has_time;
      iso = ap (λ (x : Snapshot). x.observed_at) (sym same);
      bounds =
          subst (λ x. IsSnapshot h now x time) same
            (record {
              power = require-eq_some _ power_ok;
              energy = require-eq_some _ energy_ok;
              status = require-eq_some _ status_ok;
              not_ahead = time-bound (now + 300000) time in_time;
            });
    }

-- `toISOString` of a time that `Date.parse` returned is read back as that time.
abbrev pub IsoReadsBack : Host → Type 0
IsoReadsBack h = (x : Text) (t : ℤ) → h.date_parse x ≡ some t → h.date_parse (h.to_iso t) ≡ some t

valid_date-date_parse :
    (h : Host) (x : Text) (t : ℤ) → valid_date h x ≡ some t → h.date_parse x ≡ some t
unfolding valid_date
valid_date-date_parse h x t e = ground arith

snapshot_json-time :
    (h : Host) (s : Snapshot) → observed_at h (snapshot_json s) ≡ h.date_parse s.observed_at
unfolding observed_at find_field text_eq
snapshot_json-time h s = refl

parse_snapshot-IsRead :
    (h : Host) (raw : Bytes) (now : ℕ) (s : Snapshot)
    → parse_snapshot h raw now ≡ ok s
    → IsRead h now s
unfolding parse_snapshot read_snapshot
parse_snapshot-IsRead h raw now s e = go (h.json_parse (h.utf8_decode raw)) e
  where
    go : (o : Option Json) → parse_value h now o ≡ ok s → IsRead h now s
    go none f = cc
    go (some (object fs)) f = read_fields-IsRead h now fs s (ground arith)
    go (some null) f = cc
    go (some (bool b)) f = cc
    go (some (number x)) f = cc
    go (some (string x)) f = cc
    go (some (array x)) f = cc

-- Every snapshot that `parseSnapshot` returns has its power and energy within the bounds, a status of
-- one to 64 permitted characters, and a time that can be read, at most five minutes ahead of the
-- clock. (`toISOString` is read back by `Date.parse`.)
pub parse_snapshot-IsSnapshot :
    (h : Host) (raw : Bytes) (now : ℕ) (s : Snapshot)
    → IsoReadsBack h
    → parse_snapshot h raw now ≡ ok s
    → (dated : IsDated h (snapshot_json s)) × IsSnapshot h now s dated.time
parse_snapshot-IsSnapshot h raw now s back e =
    let r = parse_snapshot-IsRead h raw now s e in
    let time : observed_at h (snapshot_json s) ≡ some r.time =
      snapshot_json-time h s
      ∙ ap h.date_parse r.iso
      ∙ back r.text r.time (valid_date-date_parse h r.text r.time r.valid) in
    (record { present = refl; time = r.time; dated = time }, r.bounds)

-- The publisher's format is read back: a body that parses to the object of a snapshot within the
-- bounds gives that snapshot, its time in the form of `toISOString`.
pub parse_snapshot-snapshot_json :
    (h : Host) (raw : Bytes) (now : ℕ) (s : Snapshot) (time : ℤ)
    → h.json_parse (h.utf8_decode raw) ≡ some (snapshot_json s)
    → valid_date h s.observed_at ≡ some time
    → IsSnapshot h now s time
    → parse_snapshot h raw now ≡ ok (record s { observed_at = h.to_iso time })
unfolding parse_snapshot read_snapshot is_allowed find_field text_eq
parse_snapshot-snapshot_json h raw now s time parsed dated v =
    let in_time : not (ltbℤ (pos (now + 300000)) time) ≡ true = ground (arith, v.not_ahead) in
    rw (parsed, parse_snapshot, v.power, v.energy, v.status, dated, in_time) refl
