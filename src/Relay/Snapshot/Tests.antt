-- ===== src/Relay/Snapshot/Tests.antt =====
-- app.js: `parseSnapshot` at concrete values.
use helio.Prelude.{◌≡◌, refl, true, false, some, [], arith, pos}
use helio.Js.Text.{codes, text_eq}
use helio.Js.Number.{whole, infinity}
use helio.Js.Json.{find_field}
use helio.Js.Host.{Host}
use helio.Js.Toy.{toy}
use helio.Relay.Errors.{ok, throw, request_error}
use helio.Relay.State.Freshness.{IsDated}
use helio.Relay.Snapshot.{
  Snapshot, snapshot_json, parse_snapshot, valid_date, date_shape, read_snapshot, is_allowed,
  status_shape,
}
use helio.Relay.Snapshot.Laws.{
  IsSnapshot, IsoReadsBack, parse_snapshot-IsSnapshot, parse_snapshot-snapshot_json,
}

abbrev pub reading : Snapshot
reading = record {
  observed_at = codes "2026-07-29T19:29:55Z";
  ac_power_w = whole 2840;
  energy_today_wh = whole 14200;
  status = codes "normal";
  stale = false;
}

-- A host whose dates are all the same instant.
abbrev pub still_host : Snapshot → Host
still_host s = record (toy (snapshot_json s)) {
  date_parse = λ x. some (pos 1785353395000);
  to_iso = λ t. codes "2026-07-29T19:29:55.000Z";
}

abbrev normalised : Snapshot
normalised = record reading { observed_at = codes "2026-07-29T19:29:55.000Z" }

pub still_host-IsoReadsBack : IsoReadsBack (still_host reading)
still_host-IsoReadsBack x t e = e

accepts : parse_snapshot (still_host reading) [] 1785353400000 ≡ ok normalised
unfolding parse_snapshot read_snapshot text_eq find_field is_allowed valid_date status_shape
accepts = refl

refuses_infinity :
    parse_snapshot (still_host (record reading { ac_power_w = infinity })) [] 1785353400000
    ≡ throw (request_error 422 (codes "invalid_snapshot"))
unfolding parse_snapshot read_snapshot text_eq find_field is_allowed valid_date status_shape
refuses_infinity = refl

date_shapes :
    (date_shape (codes "2026-07-29T19:29:55Z") ≡ true)
    × (date_shape (codes "2026-07-29T19:29:55.123456789Z") ≡ true)
    × (date_shape (codes "2026-07-29T19:29:55.1234567890Z") ≡ false)
    × (date_shape (codes "2026-07-29T19:29:55.Z") ≡ false)
    × (date_shape (codes "2026-07-29 19:29:55Z") ≡ false)
    × (date_shape (codes "2026-07-29T19:29:55Z ") ≡ false)
unfolding date_shape
date_shapes = (refl, refl, refl, refl, refl, refl)

reading-IsSnapshot : IsSnapshot (still_host reading) 1785353400000 reading (pos 1785353395000)
unfolding status_shape
reading-IsSnapshot = record { power = refl; energy = refl; status = refl; not_ahead = omega arith }

reading-date : valid_date (still_host reading) reading.observed_at ≡ some (pos 1785353395000)
unfolding valid_date
reading-date = refl

parse_snapshot-IsSnapshot_example :
    (dated : IsDated (still_host reading) (snapshot_json normalised)) × IsSnapshot
      (still_host reading)
      1785353400000
      normalised
      dated.time
parse_snapshot-IsSnapshot_example =
    parse_snapshot-IsSnapshot (still_host reading) [] 1785353400000 normalised
      still_host-IsoReadsBack accepts

parse_snapshot-snapshot_json_example :
    parse_snapshot (still_host reading) [] 1785353400000 ≡ ok normalised
parse_snapshot-snapshot_json_example =
    parse_snapshot-snapshot_json (still_host reading) [] 1785353400000 reading (pos 1785353395000)
      refl reading-date reading-IsSnapshot
