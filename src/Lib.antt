-- ===== src/Lib.antt =====
-- Verification of Interview Insights: the moderation of what candidates submit.
--
-- The program. Candidates submit ratings of rounds and recruiters, reviews of processes and
-- requests for companies. Each is gated by moderation: its row is `pending` and a row of the
-- moderation queue refers to it by type and id. Staff claim, release and decide queue entries
-- through the routes of api/src/moderation/moderation.controller.ts, behind guards that look at
-- the session's role. A service (services/review-analyzer) computes a verdict on each submission
-- and publishes it; api/src/verdict-consumer stores it and may approve or flag through the same
-- service that staff use. An hourly sweep announces deadlines. Decisions are published to a
-- broker, and search indexes and analytics views follow them as well as they can.
--
-- The files.
--   Prelude         library names passed on; rows of a table as lists (Prelude/Rows, Prelude/Keys,
--                   Prelude/Latest, Prelude/Writes).
--   Prisma          the database client (@prisma/client), which is not part of the repository, as an
--                   interface with its documented laws, and a client that meets them.
--   Schema          the tables and enums of api/prisma/schema.prisma.
--   World           the state of a process and the monad of the services' methods: tables, clock, ids
--                   given out, requests sent; exceptions, transactions and caught failures.
--   Moderation      api/src/moderation/moderation.service.ts: Queue (enqueue, reenqueue,
--                   removeQueueEntries, computeSlaDeadline), Claims (claim, release), Lookups
--                   (entityExists and the joins), Publishing, Indexing, Review (approve, reject, flag,
--                   approveWithAudit, review), and Schedule, calls that run at the same time.
--   Sla             api/src/moderation/sla-breach-detection.service.ts.
--   Verdicts        api/src/verdict-consumer/verdict-consumer.service.ts.
--   Access          api/src/admin-auth/permissions.ts, the two guards and the moderation routes.
--   Staff           api/src/staff-accounts/staff-accounts.service.ts, with its audit trail.
--   Throttles       api/src/common/edit-throttle.service.ts and ip-throttle.ts, with the login guard.
--   Fraud           api/src/fraud-checks/fraud-checks.service.ts.
--   Submissions     what candidates write: RoundRatings, RecruiterRatings, OverallReviews, Companies,
--                   RoundTypes (api/src/round-type-registry), Processes (interview processes, rounds
--                   and recruiters) and Bulk (api/src/bulk-process-submission), each for the
--                   service of that name in api/src; Inserts holds the parts of their transactions
--                   that a bulk submission shares.
--                   Public holds what anyone may read of companies, ratings and reviews.
--   Candidates      api/src/candidate-auth/candidate-auth.service.ts with the check of a session in
--                   strategies/candidate-jwt.strategy.ts, and api/src/candidates.
--   Me              api/src/me/me.service.ts: the erasure of an account.
--   Gate            the moderation gate over all of these services: the invariant that the queue
--                   and the statuses of the submissions keep, one file for each step, and Requests,
--                   any sequence of calls.
--   Notifications   services/notification-service/src/notifications/notification-consumer.service.ts,
--                   over a state of its own, and reconciliation-sweep.service.ts beside it.
--   Examples        concrete worlds, and each theorem applied to one.
--
-- How the model corresponds to the code. A method is an `Action`, a function from the world to an
-- answer or an exception and the next world; `await a; await b` is `do a; b`. A `where` clause is
-- a Boolean test on rows and a `data` clause a function on rows, so that a gated `updateMany` is
-- one piece, as it is in the database. Ids are numbers, times are milliseconds, and JSON values
-- are texts. The clock stands still within a call and moves between calls. The requests to
-- OpenSearch, to the broker and for a view's refresh are logged, and `answers` says which of them
-- succeed. A `data` field that is undefined keeps the column. Calls that run at the same time are
-- a schedule of atoms, each of which the database executes in one piece; the read that a decision
-- was taken on may be arbitrarily stale. Where a theorem needs the ids of the queue to be
-- distinct, that is what the primary key of the table gives; that every id in the queue has been
-- issued holds of the empty queue and is kept by every step.
--
-- bcrypt, HMAC, SHA-256 and encryption are parameters, and a token that is generated is an argument.
-- An insert into a table with a unique key reads the key first and is refused where it is taken,
-- as the database refuses it. An insert takes its foreign keys to hold; a deletion that ON DELETE
-- RESTRICT forbids is refused in the erasure of an account. Queries that order rows by a key leave
-- the order of rows with the same key open: pages of one list may disagree on it. A database that
-- fails for no reason of its own is modelled in one place, the stamp of an announced deadline, where
-- the code catches it (`takes_stamp`).
--
-- Bounds. No function here runs on fuel: all recursion is on lists and numbers.
-- MODERATION_SLA_HOURS is a whole number of hours in the model, so that a quarter of the window
-- is a whole number of milliseconds.
--
-- Not modelled: listing and searching the queue, the list of a candidate's submissions, the
-- wording of mails, the review analyzer, analytics, the web client, and the wiring of the
-- frameworks. Parsing a broker's message is a parameter of `handle_message`, since JSON.parse and
-- class-validator are not code of the repository.
pub mod Prelude
pub mod Prisma
pub mod Schema
pub mod World
pub mod Moderation
pub mod Sla
pub mod Verdicts
pub mod Access
pub mod Examples
pub mod Staff
pub mod Throttles
pub mod Fraud
pub mod Submissions
pub mod Notifications
pub mod Gate
pub mod Candidates
pub mod Me
