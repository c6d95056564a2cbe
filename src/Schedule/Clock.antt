-- ===== src/Schedule/Clock.antt =====
-- The texts of block times: the pattern of schedule.dto.ts and `timeToMinutes` of
-- schedule.service.ts. A text is the list of its character codes.
use goal_slot_api.Base.{
  ℕ, ◌+◌, ◌-◌, ◌*◌, ◌<◌, ◌≡◌, Bool, true, false, ◌&&◌, ◌||◌, Option, none, some, List, [], ◌∷◌,
  arith, leb, ◌==◌, if◌then◌else◌,
}

abbrev pub Text : Type 0
Text = List ℕ

abbrev between : ℕ → ℕ → ℕ → Bool
between lo hi c = leb lo c && leb c hi

abbrev is_digit : ℕ → Bool
is_digit = between b'0' b'9'

-- /^([0-1]?[0-9]|2[0-3]):[0-5][0-9]$/
unfoldable pub matches_time : Text → Bool
matches_time (h ∷ c ∷ m ∷ n ∷ []) = is_digit h && (c == b':') && between b'0' b'5' m && is_digit n
matches_time (g ∷ h ∷ c ∷ m ∷ n ∷ []) =
    ((between b'0' b'1' g && is_digit h) || ((g == b'2') && between b'0' b'3' h))
    && (c == b':')
    && between b'0' b'5' m
    && is_digit n
matches_time _ = false

abbrev push : ℕ → List Text → List Text
push c [] = (c ∷ []) ∷ []
push c (p ∷ ps) = (c ∷ p) ∷ ps

-- `time.split(':')`
split_colon : Text → List Text
split_colon [] = [] ∷ []
split_colon (c ∷ cs) = let rest = split_colon cs in if c == b':' then [] ∷ rest else push c rest

-- `Number` of a text of digits (`Number('')` is 0); `none` is NaN. Signs, blanks, fractions,
-- exponents and prefixed numerals, which the pattern of the dto excludes, are taken for NaN.
number_from : ℕ → Text → Option ℕ
number_from acc [] = some acc
number_from acc (c ∷ cs) =
    let rest = number_from (acc * 10 + (c - b'0')) cs in if is_digit c then rest else none

abbrev minutes_of : Option ℕ → Option ℕ → Option ℕ
minutes_of (some h) (some m) = some (h * 60 + m)
minutes_of _ _ = none

-- A part that is missing is `undefined`, and makes the sum NaN.
abbrev minutes_of_parts : List Text → Option ℕ
unfolding number_from
minutes_of_parts (h ∷ m ∷ rest) = minutes_of (number_from 0 h) (number_from 0 m)
minutes_of_parts _ = none

unfoldable pub time_to_minutes : Text → Option ℕ
unfolding split_colon number_from
time_to_minutes time = minutes_of_parts (split_colon time)

-- Every text that the dto accepts is a minute of the day: never NaN, and below 24 * 60.
pub time_to_minutes_in_day :
    (time : Text)
    → matches_time time ≡ true
    → (m : ℕ) × (time_to_minutes time ≡ some m) × (m < 1440)
unfolding matches_time time_to_minutes
time_to_minutes_in_day (h ∷ c ∷ m ∷ n ∷ []) e =
    ((h - b'0') * 60 + ((m - b'0') * 10 + (n - b'0')), ground arith, ground arith)
time_to_minutes_in_day (g ∷ h ∷ c ∷ m ∷ n ∷ []) e = (
  ((g - b'0') * 10 + (h - b'0')) * 60 + ((m - b'0') * 10 + (n - b'0')),
  ground arith,
  ground arith,
)
time_to_minutes_in_day _ e = cc
