-- ===== src/Web/Live/Events.antt =====
-- live-events.ts: what every event that is read carries.
use helio.Prelude.{
  is_some, if-some, sym, Bool, true, false, Option, none, some, ◌≡◌, refl, arith, Bool-cases, inl,
  inr, not, ◌&&◌, ◌||◌, if◌then◌else◌,
}
use helio.Js.Text.{Text, codes, text_eq}
use helio.Js.Json.{Json, get_field, is_record}
use helio.Js.Host.{Host}
use helio.Web.Live.Snapshots.{IsComplete, is_snapshot-IsComplete}
use helio.Web.Live.{
  LiveEvent, state_event, snapshot_event, parse_live_event, read_event, read_pair, is_state,
  is_snapshot, state_of, absent_or, is_text,
}

-- A snapshot is complete, or absent.
abbrev pub AllComplete : Host → Option Json → Type 0
AllComplete h none = Unit
AllComplete h (some v) = IsComplete h v

abbrev pub EventIsValid : Host → LiveEvent → Type 0
EventIsValid h (state_event s) = AllComplete h s.snapshot
EventIsValid h (snapshot_event s v) = AllComplete h s.snapshot × IsComplete h v

absent_or-AllComplete :
    (h : Host) (o : Option Json) → absent_or (is_snapshot h) o ≡ true → AllComplete h o
absent_or-AllComplete h none e = tt
absent_or-AllComplete h (some v) e = is_snapshot-IsComplete h v e

state_of-AllComplete :
    (h : Host) (v : Json) → is_state h v ≡ true → AllComplete h (state_of v).snapshot
unfolding is_state
state_of-AllComplete h v e = absent_or-AllComplete h (get_field (codes "snapshot") v) (ground arith)

read_pair-IsValid :
    (h : Host) (s v : Option Json) (e : LiveEvent) → read_pair h s v ≡ some e → EventIsValid h e
unfolding read_pair
read_pair-IsValid h (some s) (some v) e r = decided (is_state h s) (is_snapshot h v) refl refl r
  where
    decided :
        (c d : Bool)
        → is_state h s ≡ c
        → is_snapshot h v ≡ d
        → (if c && d then some (snapshot_event (state_of s) v) else none) ≡ some e
        → EventIsValid h e
    decided true true p q r' =
        rw (sym ((if-some true (snapshot_event (state_of s) v) e r').1))
          (state_of-AllComplete h s p, is_snapshot-IsComplete h v q)
    decided true false p q r' = cc
    decided false d p q r' = cc
read_pair-IsValid h (some s) none e r = cc
read_pair-IsValid h none v e r = cc

read_event-IsValid :
    (h : Host) (kind : Text) (v : Json) (e : LiveEvent)
    → read_event h kind v ≡ some e
    → EventIsValid h e
unfolding read_event
read_event-IsValid h kind v e r = elim (Bool-cases (text_eq kind (codes "state"))) [
  | inl k ↦ of_state (is_state h v) refl (rw k at r)
  | inr k ↦ of_snapshot refused (rw k at r)
]
  where
    refused : Bool
    refused =
        not (text_eq kind (codes "snapshot"))
        || (not (is_record v)
            || (not (is_text (codes "snapshot") (get_field (codes "kind") v))
                || is_some (get_field (codes "version") v)))

    of_snapshot :
        (c : Bool)
        → (if c
            then none
            else read_pair h (get_field (codes "state") v) (get_field (codes "snapshot") v))
          ≡ some e
        → EventIsValid h e
    of_snapshot true q = cc
    of_snapshot false q =
        read_pair-IsValid h (get_field (codes "state") v) (get_field (codes "snapshot") v) e q

    of_state :
        (c : Bool)
        → is_state h v ≡ c
        → (if c then some (state_event (state_of v)) else none) ≡ some e
        → EventIsValid h e
    of_state true p q =
        rw (sym ((if-some true (state_event (state_of v)) e q).1)) (state_of-AllComplete h v p)
    of_state false p q = cc

-- Every snapshot that an event of the stream carries, its own and that of its state, is complete: its
-- time can be read, it has a status, its power and energies, the figures of the grid and of both
-- trackers are finite numbers, and its fault codes are natural numbers.
pub parse_live_event-IsValid :
    (h : Host) (kind text : Text) (e : LiveEvent)
    → parse_live_event h kind text ≡ some e
    → EventIsValid h e
unfolding parse_live_event
parse_live_event-IsValid h kind text e r = parsed (h.json_parse text) r
  where
    parsed :
        (o : Option Json)
        → (elim o [ none ↦ none | some v ↦ read_event h kind v ]) ≡ some e
        → EventIsValid h e
    parsed none q = cc
    parsed (some v) q = read_event-IsValid h kind v e q
