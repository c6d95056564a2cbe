-- ===== src/Coach/Titles.antt =====
-- The identity of a schedule block that a proposal names: `normalizeTitle`, `titlesMatch`,
-- `assertExpectedTitle` and `resolveStaleScheduleBlock` of
-- src/modules/coach-proposals/coach-proposals.service.ts. `lower` is `toLowerCase`.
use goal_slot_api.Base.{
  ℕ, Bool, true, false, not, ◌&&◌, Option, none, some, List, [], ◌∷◌, ◌++◌, String, filter, find,
  ◌==◌, if◌then◌else◌, bad_request, Result, throw_if,
}
use goal_slot_api.Db.{Text, ScheduleBlock, column_eq, truthy}
use goal_slot_api.Notes.Text.{units, trim, text_eq}
use goal_slot_api.Timer.Session.{is_space}
use goal_slot_api.Schedule.Conflict.{times_overlap}
use goal_slot_api.Schedule.Update.{Changes, changed_goal, of_user, owned_by}

-- `replace(/\s+/g, ' ')`: `in_run` says that the unit before was a blank.
unfoldable pub collapse : (in_run : Bool) → Text → Text
collapse in_run [] = []
collapse in_run (c ∷ cs) =
    let inside = collapse true cs in
    let outside = collapse false cs in
    if is_space c then (if in_run then inside else b' ' ∷ inside) else c ∷ outside

-- How a text that may be absent is taken: `typeof x === 'string' && x`.
abbrev pub non_empty : Option String → Option String
non_empty s = if truthy s then s else none

abbrev pub is_blank : String → Bool
is_blank s = text_eq (trim (units s)) []

module _ (lower : Text → Text) where
  unfoldable pub normalize_title : String → Text
  unfolding collapse
  normalize_title title = collapse false (lower (trim (units title)))

  unfoldable pub titles_match : String → String → Bool
  titles_match a b = text_eq (normalize_title a) (normalize_title b)

  abbrev pub block_has_title : String → Option ScheduleBlock → Bool
  block_has_title expected_title none = true
  block_has_title expected_title (some b) = titles_match b.title expected_title

  -- A block that is not there passes.
  unfoldable pub assert_expected_title :
      String → String → String → List ScheduleBlock → Result (Unit {0})
  assert_expected_title user_id block_id expected_title table =
      throw_if (not (block_has_title expected_title (find (owned_by user_id block_id) table)))
        (bad_request "this action targeted a different block than intended")

  -- The title that identifies the block, where the proposal gives one that is not blank.
  abbrev pub identifying_title : Option String → Option String
  identifying_title none = none
  identifying_title (some t) = if is_blank t then none else some t

  abbrev pub has_title : String → ScheduleBlock → Bool
  has_title title b = titles_match b.title title

  abbrev pub on_weekday : ℕ → ScheduleBlock → Bool
  on_weekday day b = b.day_of_week == day

  abbrev pub Tier : Type 0
  Tier = ScheduleBlock → Bool

  abbrev pub title_tiers : Option String → Option ℕ → List Tier
  title_tiers none day = []
  title_tiers (some t) none = has_title t ∷ []
  title_tiers (some t) (some d) = (λ b. on_weekday d b && has_title t b) ∷ has_title t ∷ []

  abbrev pub day_goal_tiers : Option ℕ → Option String → List Tier
  day_goal_tiers (some d) (some g) = (λ b. on_weekday d b && column_eq b.goal_id g) ∷ []
  day_goal_tiers _ _ = []

  -- `windowsOverlap`
  abbrev pub window_tiers : Option ℕ → Option Text → Option Text → List Tier
  window_tiers (some d) (some s) (some e) =
      (λ b. on_weekday d b && times_overlap b.start_time b.end_time s e) ∷ []
  window_tiers _ _ _ = []

  abbrev pub goal_tiers : Option String → List Tier
  goal_tiers none = []
  goal_tiers (some g) = (λ b. column_eq b.goal_id g) ∷ []

  unfoldable pub tiers : Changes → Option String → List Tier
  tiers c expected_title =
      let title = identifying_title expected_title in
      let goal_id = non_empty (changed_goal c) in
      title_tiers title c.day_of_week
      ++ day_goal_tiers c.day_of_week goal_id
      ++ window_tiers c.day_of_week c.start_time c.end_time
      ++ goal_tiers goal_id

pub data Resolution : Type 0 where
  resolved : (id : String) → Resolution
  ambiguous no_match : Resolution

-- What the matches of one tier decide; `weaker` is what the tiers after it say.
abbrev pub decided : List ScheduleBlock → Resolution → Resolution
decided [] weaker = weaker
decided (b ∷ []) weaker = resolved b.id
decided (b ∷ b' ∷ more) weaker = ambiguous

unfoldable pub first_tier : List (ScheduleBlock → Bool) → List ScheduleBlock → Resolution
first_tier [] blocks = no_match
first_tier (tier ∷ rest) blocks = decided (filter tier blocks) (first_tier rest blocks)

-- Where nothing identifies the block there is no tier.
unfoldable pub resolve_stale_schedule_block :
    (Text → Text) → String → Changes → Option String → List ScheduleBlock → Resolution
resolve_stale_schedule_block lower user_id c expected_title table =
    first_tier (tiers lower c expected_title) (filter (of_user user_id) table)
