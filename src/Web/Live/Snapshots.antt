-- ===== src/Web/Live/Snapshots.antt =====
-- live-events.ts: what `isSnapshot` tests, field by field.
use helio.Prelude.{
  ℕ, ◌%◌, ◌^◌, ◌≡◌, refl, Bool, true, false, ◌&&◌, Option, none, some, List, [], ◌∷◌, arith, all,
  All, ℤ, pos, negsuc,
}
use helio.Js.Text.{Text, codes}
use helio.Js.Number.{dyadic, infinity, neg_infinity, nan}
use helio.Js.Json.{
  Json, null, bool, number, string, array, object, get_field, as_array, as_string, as_bool,
}
use helio.Js.Host.{Host}
use helio.Web.Live.{
  finite, is_mppt, is_fault_code, are_fault_codes, is_date, is_grid, is_snapshot, is_some,
}

-- A field of an object is a finite number.
abbrev pub HasFigure : Text → Json → Type 0
HasFigure name v = (m : ℤ) × (k : ℕ) × (get_field name v ≡ some (number (dyadic m k)))

-- A field is a text.
abbrev pub HasText : Text → Json → Type 0
HasText name v = (t : Text) × (get_field name v ≡ some (string t))

-- A field is a text that is read as a time.
abbrev pub HasTime : Host → Text → Json → Type 0
HasTime h name v =
    (t : Text) × (time : ℤ) × (get_field name v ≡ some (string t)) × (h.date_parse t ≡ some time)

abbrev pub HasGrid : Json → Type 0
HasGrid v =
    (w : Json) × (get_field (codes "grid") v ≡ some w)
    × (HasFigure (codes "voltageV") w × HasFigure (codes "frequencyHz") w)

-- A tracker tells whether it is active, and its current, power and voltage.
abbrev pub HasTracker : Text → Json → Type 0
HasTracker name v =
    (w : Json) × (get_field name v ≡ some w)
    × ((b : Bool) × (get_field (codes "active") w ≡ some (bool b)))
    × (HasFigure (codes "currentA") w
        × HasFigure (codes "powerW") w
        × HasFigure (codes "voltageV") w)

-- A number is natural: n / 2 ^ k, and whole.
abbrev pub IsFault : Json → Type 0
IsFault c = (n : ℕ) × (k : ℕ) × (c ≡ number (dyadic (pos n) k)) × (n % 2 ^ k ≡ 0)

abbrev pub HasFaults : Json → Type 0
HasFaults v =
    (w : Json) × (vs : List Json) × (get_field (codes "faultCodes") v ≡ some w)
    × (as_array w ≡ some vs)
    × All IsFault vs

pub record IsComplete (h : Host) (v : Json) : Type 0 where
  pub observed : HasTime h (codes "observedAt") v
  pub status : HasText (codes "status") v
  pub ac_power : HasFigure (codes "acPowerW") v
  pub energy_today : HasFigure (codes "energyTodayWh") v
  pub energy_lifetime : HasFigure (codes "energyLifetimeWh") v
  pub grid : HasGrid v
  pub pv1 : HasTracker (codes "pv1") v
  pub pv2 : HasTracker (codes "pv2") v
  pub faults : HasFaults v

both : (a b : Bool) → (a && b) ≡ true → (a ≡ true) × (b ≡ true)
both true b e = (refl, e)
both false b e = cc

finite-figure :
    (o : Option Json) → finite o ≡ true → (m : ℤ) × (k : ℕ) × (o ≡ some (number (dyadic m k)))
finite-figure none e = cc
finite-figure (some null) e = cc
finite-figure (some (bool b)) e = cc
finite-figure (some (number (dyadic m k))) e = (m, k, refl)
finite-figure (some (number infinity)) e = cc
finite-figure (some (number neg_infinity)) e = cc
finite-figure (some (number nan)) e = cc
finite-figure (some (string s)) e = cc
finite-figure (some (array vs)) e = cc
finite-figure (some (object fs)) e = cc

text-given : (o : Option Json) → is_some (as_string o) ≡ true → (t : Text) × (o ≡ some (string t))
text-given none e = cc
text-given (some null) e = cc
text-given (some (bool b)) e = cc
text-given (some (number x)) e = cc
text-given (some (string s)) e = (s, refl)
text-given (some (array vs)) e = cc
text-given (some (object fs)) e = cc

bool-given : (o : Option Json) → is_some (as_bool o) ≡ true → (b : Bool) × (o ≡ some (bool b))
bool-given none e = cc
bool-given (some null) e = cc
bool-given (some (bool b)) e = (b, refl)
bool-given (some (number x)) e = cc
bool-given (some (string s)) e = cc
bool-given (some (array vs)) e = cc
bool-given (some (object fs)) e = cc

time-read : (o : Option ℤ) → is_some o ≡ true → (time : ℤ) × (o ≡ some time)
time-read none e = cc
time-read (some time) e = (time, refl)

is_date-time :
    (h : Host) (o : Option Json)
    → is_date h o ≡ true
    → (t : Text) × (time : ℤ) × (o ≡ some (string t)) × (h.date_parse t ≡ some time)
unfolding is_date
is_date-time h none e = cc
is_date-time h (some null) e = cc
is_date-time h (some (bool b)) e = cc
is_date-time h (some (number x)) e = cc
is_date-time h (some (string s)) e =
    let (time, p) = time-read (h.date_parse s) e in (s, time, refl, p)
is_date-time h (some (array vs)) e = cc
is_date-time h (some (object fs)) e = cc

grid-given :
    (o : Option Json)
    → is_grid o ≡ true
    → (w : Json) × (o ≡ some w)
      × (HasFigure (codes "voltageV") w × HasFigure (codes "frequencyHz") w)
unfolding is_grid
grid-given none e = cc
grid-given (some w) e =
    let (_, figures) = both _ _ e in
    let (volts, hertz) = both _ _ figures in
    (w, refl, (finite-figure _ volts, finite-figure _ hertz))

mppt-given :
    (o : Option Json)
    → is_mppt o ≡ true
    → (w : Json) × (o ≡ some w)
      × ((b : Bool) × (get_field (codes "active") w ≡ some (bool b)))
      × (HasFigure (codes "currentA") w
          × HasFigure (codes "powerW") w
          × HasFigure (codes "voltageV") w)
unfolding is_mppt
mppt-given none e = cc
mppt-given (some w) e =
    let (_, rest) = both _ _ e in
    let (active, figures) = both _ _ rest in
    let (current, others) = both _ _ figures in
    let (power, volts) = both _ _ others in
    (
      w,
      refl,
      bool-given _ active,
      (finite-figure _ current, finite-figure _ power, finite-figure _ volts),
    )

IsFault-given : (c : Json) → is_fault_code c ≡ true → IsFault c
unfolding is_fault_code
IsFault-given null e = cc
IsFault-given (bool b) e = cc
IsFault-given (number (dyadic (pos n) k)) e = (n, k, refl, ground (arith, e))
IsFault-given (number (dyadic (negsuc n) k)) e = ground (arith, e)
IsFault-given (number infinity) e = cc
IsFault-given (number neg_infinity) e = cc
IsFault-given (number nan) e = cc
IsFault-given (string s) e = cc
IsFault-given (array vs) e = cc
IsFault-given (object fs) e = cc

all-faults : (vs : List Json) → all is_fault_code vs ≡ true → All IsFault vs
all-faults [] e = tt
all-faults (c ∷ vs) e = let (a, b) = both _ _ e in (IsFault-given c a, all-faults vs b)

faults-given :
    (o : Option Json)
    → are_fault_codes o ≡ true
    → (w : Json) × (vs : List Json) × (o ≡ some w) × (as_array w ≡ some vs) × All IsFault vs
unfolding are_fault_codes
faults-given none e = cc
faults-given (some w) e = read (as_array w) refl e
  where
    read :
        (a : Option (List Json))
        → as_array w ≡ a
        → (elim a [ none ↦ false | some vs ↦ all is_fault_code vs ]) ≡ true
        → (w' : Json) × (vs : List Json) × (some w ≡ some w')
          × (as_array w' ≡ some vs)
          × All IsFault vs
    read none p q = cc
    read (some vs) p q = (w, vs, refl, p, all-faults vs q)

pub is_snapshot-IsComplete : (h : Host) (v : Json) → is_snapshot h v ≡ true → IsComplete h v
unfolding is_snapshot
is_snapshot-IsComplete h v e =
    let (a, b) = both _ _ e in
    let (_, grid) = both _ _ a in
    let (time, b1) = both _ _ b in
    let (status, b2) = both _ _ b1 in
    let (power, b3) = both _ _ b2 in
    let (today, b4) = both _ _ b3 in
    let (lifetime, b5) = both _ _ b4 in
    let (first, b6) = both _ _ b5 in
    let (second, faults) = both _ _ b6 in
    record {
      observed = is_date-time h _ time;
      status = text-given _ status;
      ac_power = finite-figure _ power;
      energy_today = finite-figure _ today;
      energy_lifetime = finite-figure _ lifetime;
      grid = grid-given _ grid;
      pv1 = mppt-given _ first;
      pv2 = mppt-given _ second;
      faults = faults-given _ faults;
    }
