-- ===== src/Schedule/Times.antt =====
-- lib/schedule.ts: times as texts ("08:30"), the formats that are accepted, and minutes of the day.
-- A text is the list of its code units. `none` stands for NaN.
use ufcim_backend_proto.Prelude.{
  ℕ, zero, suc, ◌+◌, ◌-◌, ◌*◌, ◌/◌, ◌%◌, Bool, true, false, ◌&&◌, ◌||◌, Option, none, some, List,
  [], ◌∷◌, ◌++◌, ltb, leb, ◌==◌, if◌then◌else◌, length,
}

abbrev pub Text : Type 0
Text = List ℕ

unfoldable pub text_eq : Text → Text → Bool
text_eq [] [] = true
text_eq [] (d ∷ ds) = false
text_eq (c ∷ cs) [] = false
text_eq (c ∷ cs) (d ∷ ds) = c == d && text_eq cs ds

abbrev pub default_closed_from : Text
default_closed_from = b'2' ∷ b'2' ∷ b':' ∷ b'0' ∷ b'0' ∷ []

abbrev pub default_closed_to : Text
default_closed_to = b'0' ∷ b'7' ∷ b':' ∷ b'0' ∷ b'0' ∷ []

abbrev pub midnight : Text
midnight = b'0' ∷ b'0' ∷ b':' ∷ b'0' ∷ b'0' ∷ []

abbrev pub end_of_day : Text
end_of_day = b'2' ∷ b'4' ∷ b':' ∷ b'0' ∷ b'0' ∷ []

abbrev pub slot_minutes : ℕ
slot_minutes = 30

abbrev pub min_duration_minutes : ℕ
min_duration_minutes = 60

abbrev is_digit : ℕ → Bool
is_digit c = leb b'0' c && leb c b'9'

-- `([01]\d|2[0-3])`
abbrev is_hour : ℕ → ℕ → Bool
is_hour a b = ((a == b'0' || a == b'1') && is_digit b) || (a == b'2' && (leb b'0' b && leb b b'3'))

-- `(00|30)`
abbrev is_half : ℕ → ℕ → Bool
is_half a b = (a == b'0' || a == b'3') && b == b'0'

-- `/^([01]\d|2[0-3]):00$/`
unfoldable pub is_hourly_time : Text → Bool
is_hourly_time (a ∷ b ∷ c ∷ d ∷ e ∷ []) = is_hour a b && (c == b':' && (d == b'0' && e == b'0'))
is_hourly_time _ = false

-- `/^(?:([01]\d|2[0-3]):00|24:00)$/`
unfoldable pub is_boundary_time : Text → Bool
unfolding is_hourly_time text_eq
is_boundary_time t = is_hourly_time t || text_eq t end_of_day

-- `/^([01]\d|2[0-3]):(00|30)$/`
unfoldable pub is_slot_start_time : Text → Bool
is_slot_start_time (a ∷ b ∷ c ∷ d ∷ e ∷ []) = is_hour a b && (c == b':' && is_half d e)
is_slot_start_time _ = false

-- `/^(?:([01]\d|2[0-3]):(00|30)|24:00)$/`
unfoldable pub is_slot_end_time : Text → Bool
unfolding is_slot_start_time text_eq
is_slot_end_time t = is_slot_start_time t || text_eq t end_of_day

-- `Number` of a text of digits; the empty text is 0, and any other text is read as NaN.
unfoldable pub number_from : ℕ → Text → Option ℕ
number_from acc [] = some acc
number_from acc (c ∷ cs) =
    let rest = number_from (acc * 10 + (c - b'0')) cs in if is_digit c then rest else none

abbrev prepend : ℕ → List Text → List Text
prepend c [] = []
prepend c (p ∷ ps) = if c == b':' then [] ∷ p ∷ ps else (c ∷ p) ∷ ps

-- `time.split(':')`: the parts before and after each colon.
unfoldable pub split_colon : Text → List Text
split_colon [] = [] ∷ []
split_colon (c ∷ cs) = prepend c (split_colon cs)

abbrev minutes_of : Option ℕ → Option ℕ → Option ℕ
minutes_of none m = none
minutes_of (some h) none = none
minutes_of (some h) (some m) = some (h * 60 + m)

-- A missing part is `undefined`, so the sum is NaN.
abbrev parts_to_minutes : List Text → Option ℕ
parts_to_minutes (h ∷ m ∷ rest) = minutes_of (number_from 0 h) (number_from 0 m)
parts_to_minutes _ = none

unfoldable pub time_to_minutes : Text → Option ℕ
unfolding split_colon number_from
time_to_minutes t = parts_to_minutes (split_colon t)

-- `n.toString()`; a number has at most as many digits as its value and one.
unfoldable pub decimal : ℕ → ℕ → Text
decimal zero n = []
decimal (suc f) n =
    let more = decimal f (n / 10) ++ (b'0' + n % 10) ∷ [] in
    if ltb n 10 then (b'0' + n) ∷ [] else more

abbrev pad_start : ℕ → Text → Text
pad_start zero t = t
pad_start (suc n) t = b'0' ∷ pad_start n t

abbrev two_digits : ℕ → Text
two_digits n = let t = decimal (n + 1) n in pad_start (2 - length t) t

unfoldable pub minutes_to_time : ℕ → Text
unfolding decimal
minutes_to_time n = two_digits (n / 60) ++ b':' ∷ two_digits (n % 60)

pub data TimeSlot : Type 0 where
  morning afternoon evening : TimeSlot

-- `hour < 12` with `hour` a fraction; a comparison with NaN fails.
abbrev time_slot_of : Option ℕ → TimeSlot
time_slot_of none = evening
time_slot_of (some m) =
    if ltb m (12 * 60) then morning else if ltb m (18 * 60) then afternoon else evening

unfoldable pub derive_legacy_time_slot : Text → TimeSlot
derive_legacy_time_slot t = time_slot_of (time_to_minutes t)

-- `a < b` and `a === b` between numbers that may be NaN.
abbrev pub num_lt : Option ℕ → Option ℕ → Bool
num_lt none b = false
num_lt (some a) none = false
num_lt (some a) (some b) = ltb a b

abbrev pub num_le : Option ℕ → Option ℕ → Bool
num_le none b = false
num_le (some a) none = false
num_le (some a) (some b) = leb a b

abbrev pub num_eq : Option ℕ → Option ℕ → Bool
num_eq none b = false
num_eq (some a) none = false
num_eq (some a) (some b) = a == b

abbrev pub plus : Option ℕ → ℕ → Option ℕ
plus none n = none
plus (some a) n = some (a + n)

-- `end - start >= MIN_DURATION_MINUTES`
unfoldable pub meets_minimum_duration : Text → Text → Bool
meets_minimum_duration start end =
    num_le (plus (time_to_minutes start) min_duration_minutes) (time_to_minutes end)

-- Half-open intervals: they may touch.
unfoldable pub intervals_overlap : Text → Text → Text → Text → Bool
intervals_overlap left_start left_end right_start right_end =
    num_lt (time_to_minutes left_start) (time_to_minutes right_end)
    && num_lt (time_to_minutes right_start) (time_to_minutes left_end)
