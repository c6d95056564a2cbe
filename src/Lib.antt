-- ===== src/Lib.antt =====
-- The core of the GoalSlot API (src/modules, src/shared, prisma/schema.prisma), and what makes it
-- correct.
--
-- The parts and how they interact. A user plans a week of schedule blocks, sets goals, works on
-- tasks, and logs time entries by hand, by finishing a task, or by a timer that every device of the
-- user shares. A write of a block, a goal or an entry asks the plan limits of the user. A write of
-- an entry makes the goal of the entry recompute its hours from the sum of its entries. Webhook
-- events of the payment provider change the plan of a user, from which the plan limits are
-- resolved. A user's notes form a tree, whose texts are HTML; a summary that a model wrote passes a
-- sanitizer before it is stored. A batch of actions that the Coach proposes, and the user approves,
-- is checked as a whole and then dispatched, action by action, onto the services of goals, blocks,
-- entries and tasks. A user may give others access to the data of the account by
-- invitations and public links. Mutating requests may carry an idempotency key, under which a retry
-- replays the first answer.
--
-- Files.
--   Base           lists, options, tests on numbers, the exceptions and results of handlers
--   Db             the rows of prisma/schema.prisma that the services share; a table is the list of
--                  its rows in the order of insertion, and a state of the database a record of tables
--   Plan           src/modules/auth/plan-limits.ts, and checkPlanLimit and checkPlanLimitForUser of
--                  src/modules/auth/auth.service.ts
--   Schedule       src/modules/schedule/schedule.service.ts: Clock (timeToMinutes and the pattern of
--                  the dto), Conflict (checkTimeConflict and the guards), Create, Batch and Update
--                  (the writes, delete and clearAll); Rows holds the invariant of the table
--   Tracking       Entries: src/modules/time-entries/time-entries.service.ts; Progress: updateProgress
--                  of src/modules/goals/goals.service.ts; Tasks: src/modules/tasks/tasks.service.ts;
--                  Goals: create, update and delete of src/modules/goals/goals.service.ts;
--                  Synced, Keeps, Recompute, Updates, Complete and Restore hold the invariant of the
--                  hours and what keeps it; Reorder is about the order of tasks
--   Timer          src/modules/active-timer/active-timer.service.ts: Session (the row and the pure
--                  functions), Statements (one function for each database statement), Service (the
--                  operations); Elapsed, Races, Invariant and Stop hold what is shown of them
--   Billing        the webhook of src/modules/stripe/stripe.service.ts; Redelivery and Access hold what
--                  is shown of it
--   Sharing        src/modules/sharing/sharing.service.ts; Requests (the requests that write, and the
--                  shapes of a row), Invariant, AcceptedRow, Accept, Steps, Access and Expired hold what
--                  is shown of it
--   Notes          Store: src/modules/notes/notes.service.ts; Text and Escape: the escaping of
--                  src/modules/notes/note-content.ts; Markup and Summary: sanitizeSummaryHtml of that
--                  file; Forest, Lookups, Move and Cycle hold what is shown of the tree, Summary.Grammar is
--                  the HTML that a summary may hold
--   Auth           OtpAttempts: src/modules/auth/otp-attempt-tracker.service.ts; Otp and Register:
--                  verifyOTP and register of src/modules/auth/auth.service.ts
--   Shared         Idempotency: src/shared/idempotency/idempotency.service.ts and
--                  idempotency.interceptor.ts; Replay holds what is shown of a second request
--   Coach          Payload, Refs, Titles, Blocks, Dispatch and Apply:
--                  src/modules/coach-proposals/coach-proposals.service.ts and its dto; Safety:
--                  src/modules/coach-ai/safety/action-safety.ts; Operations, Keeps and Frame carry a
--                  predicate on the tables through a batch, BlockRows, SoundSchedule, Target,
--                  RightBlock, Stale and Repeat are about its blocks, GoalRows and Survive about its
--                  deletions of goals, Shape and Answers about payloads and results
--
-- How code corresponds. A method of a service is a function of the same name (`createBatch` is
-- `create_batch`) from its arguments and the state to a Result, which is an exception or an answer
-- with the new state. A null or absent value is `none`; in the dto of an update `none` is a field
-- left out and `some none` is null. Keys that the database makes up, the clock's readings, the
-- process's time zone and toLowerCase are arguments. NaN is `none` of a number that may be none,
-- and tests on it are false. A unique index is a test before an insert. Hours of a goal are held in
-- minutes, and its target in hundredths of an hour, so that both stay whole; JavaScript's
-- floating-point division by 60 is not modelled.
--
-- Transactions. The schedule's creates run under serializable isolation and are tried up to four
-- times (MAX_CONFLICT_RETRIES = 3 retries). An attempt is given by what the database does with it:
-- it aborts, or it reads a table. The list of attempts is as long as needed, and four are enough.
-- The walk over the descendants of a note takes fuel for its levels: one more than the tree is high
-- is enough. The loop of the sanitizer takes fuel for its rounds: one more than the text has units
-- is enough. The timer's operations are split at each statement: each statement is given the slot
-- that it meets, so that requests of other devices may come between. The interceptor of idempotent
-- requests leaves its call of `store` begun, and the call runs on the records that it meets. All
-- other operations run undisturbed.
--
-- Not modelled. Reads that only list or sum rows for an answer, controllers and decorators, the
-- rest of the modules (login and tokens, categories, labels, messaging, reports, the chat of the
-- Coach and others), public links and invitations of notes, the matching of notes by title,
-- checkout and portal sessions, third-party services and the text that they produce. The entries of
-- a deleted task lose it, as the schema says, and so do the rows of a goal or a block that a
-- proposal deletes; what a deletion does to a timer is left out. The dtos that validate the
-- payloads of proposals, and the actions of a batch on practices, the timer, the journal and notes,
-- are parameters.
pub mod Base
pub mod Auth
pub mod Shared
pub mod Db
pub mod Plan
pub mod Schedule
pub mod Tracking
pub mod Timer
pub mod Notes
pub mod Billing
pub mod Coach
pub mod Sharing
