-- ===== src/Advisories/Events/Laws.antt =====
-- Range events and the windows that they stand for, for `_pair_range_events` of app/core/osv.py.

-- A window of versions: from one on, from one up to a fix, or from one to the last affected one.
use weedout.Advisories.Events.{
  Event, opens, closes_before, closes_after, no_event, read_event, range, pair_from,
  pair_range_events,
}
use weedout.Advisories.Json.{Json, str, obj, no_fields, field, has, get}
use weedout.Base.{◌≡◌, refl, true, false, none, some, List, [], ◌∷◌, ◌++◌, map}
use weedout.Base.Text.{Text, text, text_eq}
use weedout.Types.{AffectedRange}

pub data Interval : Type 0 where
  from : Text → Interval
  until : Text → Text → Interval
  through : Text → Text → Interval

abbrev pub interval_range : Interval → AffectedRange
interval_range (from i) = range (some i) none none
interval_range (until i f) = range (some i) (some f) none
interval_range (through i l) = range (some i) none (some l)

abbrev pub event : Text → Text → Json
event k v = obj (field k (str v) no_fields)

-- The events that an advisory lists for a window
abbrev pub interval_events : Interval → List Json
interval_events (from i) = event (text "introduced") i ∷ []
interval_events (until i f) = event (text "introduced") i ∷ event (text "fixed") f ∷ []
interval_events (through i l) = event (text "introduced") i ∷ event (text "last_affected") l ∷ []

abbrev pub events_of : List Interval → List Json
events_of [] = []
events_of (w ∷ ws) = interval_events w ++ events_of ws

pair_from-events_of :
    (repr : Json → Text) (ws : List Interval)
    → (let rest = map (read_event repr) (events_of ws) in
        (pair_from none false rest ≡ map interval_range ws)
        × ((i : Text)
            → pair_from (some i) true rest ≡ (range (some i) none none ∷ map interval_range ws)))
unfolding pair_from read_event has get text_eq
pair_from-events_of repr [] = (refl, λ i. refl)
pair_from-events_of repr (from j ∷ ws) =
    let (shut, opened) = pair_from-events_of repr ws in (opened j, λ i. rw (opened j) refl)
pair_from-events_of repr (until j f ∷ ws) =
    let (shut, opened) = pair_from-events_of repr ws in (rw shut refl, λ i. rw shut refl)
pair_from-events_of repr (through j l ∷ ws) =
    let (shut, opened) = pair_from-events_of repr ws in (rw shut refl, λ i. rw shut refl)

-- The events of any list of windows are paired into those windows, in their order, also where a
-- window without an end is followed by another.
pub pair_range_events-events_of :
    (repr : Json → Text) (ws : List Interval)
    → pair_range_events repr (events_of ws) ≡ map interval_range ws
unfolding pair_range_events
pair_range_events-events_of repr ws = (pair_from-events_of repr ws).0

pair_from-intervals :
    (es : List Event)
    → ((ws : List Interval) × (pair_from none false es ≡ map interval_range ws))
      × ((i : Text) → (ws : List Interval) × (pair_from (some i) true es ≡ map interval_range ws))
unfolding pair_from
pair_from-intervals [] = (([], refl), λ i. (from i ∷ [], refl))
pair_from-intervals (opens j ∷ es) =
    let (shut, opened) = pair_from-intervals es in
    let (ws, e) = opened j in ((ws, e), λ i. (from i ∷ ws, rw e refl))
pair_from-intervals (closes_before f ∷ es) =
    let ((ws, e), opened) = pair_from-intervals es in ((ws, e), λ i. (until i f ∷ ws, rw e refl))
pair_from-intervals (closes_after l ∷ es) =
    let ((ws, e), opened) = pair_from-intervals es in ((ws, e), λ i. (through i l ∷ ws, rw e refl))
pair_from-intervals (no_event ∷ es) = pair_from-intervals es

-- Whatever the events are, stray ones and values that are no events included, what they are paired
-- into is a list of windows: each has a start, and at most one end.
pub pair_range_events-intervals :
    (repr : Json → Text) (es : List Json)
    → (ws : List Interval) × (pair_range_events repr es ≡ map interval_range ws)
unfolding pair_range_events
pair_range_events-intervals repr es = (pair_from-intervals (map (read_event repr) es)).0
