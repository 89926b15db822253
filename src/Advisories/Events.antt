-- ===== src/Advisories/Events.antt =====
-- `_pair_range_events` of app/core/osv.py.
pub mod Laws
use weedout.Advisories.Json.{Json, str, obj, has, get}
use weedout.Base.{Bool, true, false, Option, none, some, List, [], ◌∷◌, map, if◌then◌else◌}
use weedout.Base.Text.{Text, text}
use weedout.Types.{AffectedRange}

pub data Event : Type 0 where
  opens : Text → Event
  closes_before : Text → Event
  closes_after : Text → Event
  no_event : Event

-- `repr` is `str(value)` for a value that is not a text.
module _ (repr : Json → Text) where
  abbrev pub to_text : Json → Text
  to_text (str s) = s
  to_text v = repr v

  -- The tests of the loop's body, in their order
  unfoldable pub read_event : Json → Event
  unfolding has get
  read_event (obj fs) =
      if has (text "introduced") fs
      then opens (to_text (get (text "introduced") fs))
      else if has (text "fixed") fs
      then closes_before (to_text (get (text "fixed") fs))
      else if has (text "last_affected") fs
      then closes_after (to_text (get (text "last_affected") fs))
      else no_event
  read_event _ = no_event

abbrev pub range : Option Text → Option Text → Option Text → AffectedRange
range i f l = record { introduced = i; fixed = f; last_affected = l }

-- The loop from a state on: `current` is `current_introduced`, `open_window` the flag; the ranges
-- that it appends are the result.
unfoldable pub pair_from :
    (current : Option Text) (open_window : Bool) → List Event → List AffectedRange
pair_from current false [] = []
pair_from current true [] = range current none none ∷ []
pair_from current false (opens i ∷ es) = pair_from (some i) true es
pair_from current true (opens i ∷ es) = range current none none ∷ pair_from (some i) true es
pair_from current false (closes_before f ∷ es) = pair_from current false es
pair_from current true (closes_before f ∷ es) =
    range current (some f) none ∷ pair_from none false es
pair_from current false (closes_after l ∷ es) = pair_from current false es
pair_from current true (closes_after l ∷ es) = range current none (some l) ∷ pair_from none false es
pair_from current open_window (no_event ∷ es) = pair_from current open_window es

unfoldable pub pair_range_events : (Json → Text) → List Json → List AffectedRange
unfolding read_event pair_from
pair_range_events repr events = pair_from none false (map (read_event repr) events)
