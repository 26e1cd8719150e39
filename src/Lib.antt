-- ===== src/Lib.antt =====
-- Verification of the UFCIM backend, a room-booking service of a university campus (Hono on
-- Cloudflare Workers, a D1 database through drizzle).
--
-- The program's services receive validated requests from the routes, read and write the tables of
-- src/db/schema.ts, and throw an `AppError` that the error handler turns into a response. Each
-- service method is modelled as a function from the tables to a result and the new tables, so a
-- theorem speaks about the value a client gets and about what is stored.
--
--   file            models
--   Errors          src/middleware/error-handler.ts: `AppError` and its kinds, the response
--   Schedule        src/lib/schedule.ts, and `generateRecurringDates` of the reservation service
--   Schema          src/db/schema.ts: rows, statuses and the tables
--   Permissions     src/lib/reservation-permissions.ts
--   Reservation     src/services/reservation.service.ts: Guards holds its private methods, Tables the
--                   writes to the tables, Create, Recurring, Update and Cancel a public method each
--   Blocking        src/services/blocking.service.ts: Create and Remove
--   Consistency     the promise that reservations and blockings keep together, over the methods of
--                   both services in any order (Reachable)
--   Space           src/services/space.service.ts `getAvailability`; Details has `enrichSlots`
--   Privacy         src/lib/reservation-privacy.ts
--   Auth            src/services/auth.service.ts: Login, Refresh (with `revokeChain` and `logout`) and
--                   Invitations
--   Equipment       src/services/equipment.service.ts (Items) and equipment-report.service.ts:
--                   Reports (`create`), Review (`acknowledge`, `resolve`, `dismiss`) and OpenStatus
--                   (the maps of open tickets). Requests runs their methods in any order; NewTickets
--                   and OneOpen, Replay and Tracking, and Merging hold the proofs
--   Maintenance     src/services/maintenance-report.service.ts: Range, Intervals, Counts, Series and
--                   Timeline hold its helpers, Report the two public methods, the rest the proofs
--   Invitation      src/services/invitation.service.ts (Sending), invitation-request.service.ts
--                   (Reviewing) and src/lib/email-domain.ts (EmailDomain)
--   Admin           src/services/user-admin.service.ts; Steps runs its methods, those of Invitation and
--                   the acceptance of invitations in any order, the rest are proofs
--   Limits          src/middleware/rate-limit.ts (RateLimit) and rbac.ts (Roles)
--   Managers        src/services/space-manager.service.ts; AsSet reads the table as a set of pairs
--   Users           src/services/user.service.ts (all but syncFromToken) and src/lib/department-name.ts
--   Inbox           src/services/notification.service.ts; the rows the other services append are Schema's
--   Departments     src/services/department.service.ts
--   Prelude, Texts  Boolean tests, lists and tables, and `trim`
--   Tests           runs at concrete inputs
--
-- Conventions. Numbers are natural numbers; `number - number` appears only where it is not below
-- 0, but for `shift_back` (Maintenance/Range), as dates before 1970 are not modelled.
-- Identifiers, names and moments are numbers, compared as the code compares texts (ISO texts of
-- one format have the order of the moments); the empty text, which the code treats as absent, is
-- `none`. Times of day and free texts are lists of code units. A date is the number of days since
-- 1970-01-01, so that the loops over a JavaScript `Date` in UTC add 1. `Number` of a text that is
-- no sequence of digits is NaN, `none`, and every comparison with it is false. The clock is read
-- once for each request. A fresh UUID is an argument: the stream `uuid` gives those of a request
-- in their order, and an identifier that the table already holds makes the insert fail, as its
-- primary key does; rows of the audit log, and the notices that other services write, have none
-- and are always written. The partial unique index of confirmed reservations is part of
-- `insert_reservation` and `update_reservation`. The calls of WebCrypto and of the JWT library in
-- src/lib/crypto.ts and src/lib/jwt.ts are functions in a parameter of the authentication
-- service, the record `Crypto`, of which nothing is assumed. The record `Engine` of Users stands
-- for the database's LIKE, of which its documented behaviour is assumed, for its order by name,
-- and for the conversions to lower case. A request runs alone on the tables: the interleaving of
-- two requests' statements is not modelled.
--
-- Loops. The loops over lists and dates are structural. `slots_from` (Schedule/Availability) runs on
-- fuel; one unit for each minute of the day and one more is enough, since the step is positive.
-- `revoke_chain` (Auth/Refresh) has two units more than there are tokens, and each round but the
-- last meets a row that it has not met before.
--
-- Not modelled: the queries that only list, notification and audit texts, most foreign keys, the HTTP
-- routes, the zod validators, the admin pages, e-mail, Telegram and Turnstile calls, the
-- air-quality collector, the usage report and seeds.
pub mod Prelude
pub mod Errors
pub mod Schedule
pub mod Schema
pub mod Texts
pub mod Permissions
pub mod Reservation
pub mod Blocking
pub mod Consistency
pub mod Space
pub mod Privacy
pub mod Auth
pub mod Equipment
pub mod Maintenance
pub mod Invitation
pub mod Admin
pub mod Limits
pub mod Managers
pub mod Users
pub mod Inbox
pub mod Departments
pub mod Tests
