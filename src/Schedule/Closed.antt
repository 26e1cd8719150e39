-- ===== src/Schedule/Closed.antt =====
-- lib/schedule.ts: a space's closed hours as intervals of the day.
use ufcim_backend_proto.Prelude.{Bool, Option, some, List, [], ◌∷◌, if◌then◌else◌, any, or_else}
use ufcim_backend_proto.Schedule.Times.{
  Text, default_closed_from, default_closed_to, midnight, end_of_day, is_hourly_time,
  is_boundary_time, time_to_minutes, num_lt, num_eq, intervals_overlap,
}

pub record ClosedHours : Type 0 where
  pub closed_from : Text
  pub closed_to : Text

pub record Interval : Type 0 where
  pub start_time : Text
  pub end_time : Text

unfoldable pub normalize_closed_hours : Option Text → Option Text → ClosedHours
normalize_closed_hours from to = record {
  closed_from = let t = or_else from [] in if is_hourly_time t then t else default_closed_from;
  closed_to = let t = or_else to [] in if is_boundary_time t then t else default_closed_to;
}

-- Equal bounds close the whole day; closed hours that pass midnight are two intervals.
abbrev intervals_of : ClosedHours → List Interval
intervals_of h =
    let from = time_to_minutes h.closed_from in
    let to = time_to_minutes h.closed_to in
    if num_eq from to
    then record { start_time = midnight; end_time = end_of_day } ∷ []
    else if num_lt from to
    then record { start_time = h.closed_from; end_time = h.closed_to } ∷ []
    else record { start_time = midnight; end_time = h.closed_to }
      ∷ record { start_time = h.closed_from; end_time = end_of_day }
      ∷ []

unfoldable pub get_closed_intervals : Text → Text → List Interval
get_closed_intervals from to = intervals_of (normalize_closed_hours (some from) (some to))

unfoldable pub overlaps_closed_hours : Text → Text → Text → Text → Bool
overlaps_closed_hours start end from to =
    any (λ i. intervals_overlap start end i.start_time i.end_time) (get_closed_intervals from to)
