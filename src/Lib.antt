-- ===== src/Lib.antt =====
-- Verification of the NestJS boilerplate: its authentication, the inbox of notifications with the
-- broadcasts that fill it, the SMS and mail workers, the object storage with its orphan sweep, the media
-- assets, the consent to legal documents, the bug reports, and the audit, cache, error and guard layers
-- that all modules share.
--
-- Parts and files
--   Base       names that all modules share; Base.Outcome is the state monad with exceptions that the
--              asynchronous methods are written in (what was written before a throw stays written);
--              Base.Strings is a string as the list of its UTF-16 code units.
--   Shared     src/modules/shared: Shared.Redis is redis/redis.service.ts (RedisService.get is
--              Shared.Redis.get, acquireLock is acquire_lock, and so on), Shared.Users is
--              database/repositories/user.repository.ts with the row of schema/user.schema.ts,
--              Shared.Otp, Shared.Pagination and Shared.Retry are otp.util.ts, pagination.util.ts and
--              retry.util.ts of common/utils. Shared.Table is the database's table.
--              Shared.Concurrency is map-with-concurrency.ts. Shared.Audit is common/audit
--              (redact-sensitive.util.ts, and audit.interceptor.ts in Shared.Audit.Interceptor),
--              Shared.Cache is common/interceptors/cache.interceptor.ts with cache-key.util.ts,
--              Shared.Errors is common/errors (the catalogs in Shared.Errors.Catalogs) with
--              filters/http-exception.filter.ts, Shared.Escape is escape-html.util.ts and csv.util.ts
--              of common/utils, Shared.Password is password.util.ts there, and Shared.Guards is common/guards with
--              auth/strategies/jwt.strategy.ts of src/modules/platform.
--   Auth       src/modules/platform/auth: Auth.Sessions is auth.constants.ts and
--              interfaces/auth-session.types.ts; the methods of auth.service.ts stand in
--              Auth.Normalize (normalizeEmail, normalizePhone), Auth.Limits (rate limits, the
--              comparison of codes and the counters of failures), Auth.Tokens (tokens and refresh),
--              Auth.Accounts (passwords, social login, reset), Auth.EmailOtp and Auth.PhoneOtp (codes
--              by mail and by SMS). Auth.Services holds the packages and services that AuthService
--              calls. Auth.Verification treats the four endpoints of auth.controller.ts that verify a
--              code as one family, and Auth.Echo the answers that could carry a code.
--   Notifications  src/modules/platform/notifications: Notifications.Types (interfaces/ and
--              queue/notification-broadcast.types.ts), Notifications.Repository
--              (inbox/notification.repository.ts), Notifications.Inbox (inbox/notification.service.ts),
--              Notifications.Broadcast (queue/notification-broadcast.processor.ts) and
--              Notifications.Chunks (queue/notification-queue.service.ts). Notifications.Push is
--              push/one-signal-push.sender.ts with push-retry.util.ts. Notifications.Ports holds
--              what these are built over.
--   Sms        src/modules/platform/sms/queue/sms.processor.ts, the worker that sends one-time codes
--              and claims each by RedisService.acquireLock.
--   Mail       src/modules/platform/mail/queue/mail.processor.ts, the worker that sends the mails with
--              codes, in the same way.
--   Storage    src/modules/platform/storage: Storage is the port (interfaces/storage.types.ts),
--              Storage.Gcs is services/gcs-storage.service.ts over the bucket's client,
--              Storage.Cached is cached-storage.service.ts, which has the same port on top of another
--              service, Storage.Cleanup is media-cleanup.service.ts (the orphan sweep under a lock of
--              Shared.Redis) and Storage.Filename is utils/sanitize-filename.ts.
--   Media      src/modules/platform/media: Media is the repository, the types and the producer,
--              Media.Assets is services/media-asset.service.ts, Media.Processing the worker with
--              services/media-processing.service.ts, and Media.Keys the keys of both. They use a
--              service of Storage; Media.Assets.asset_port is their own port.
--   Consent    src/modules/user/consent: consent.service.ts and consent.repository.ts.
--   Countries  src/modules/user/countries: countries.service.ts and the two endpoints; Countries.Data
--              and Countries.Timezones are the tables of data/.
--   BugReports src/modules/admin/bug-reports: BugReports.Service and BugReports.Repository are its two
--              classes. The service asks the port of Media for the attachments of a report.
--
-- A method of a class is a definition with the method's name in antt's spelling; its state is passed
-- explicitly. AuthService calls RedisService, UserRepository and the queues as the source does, in the
-- order of the source.
--
-- Parameters
--   Redis, the tables, bcrypt, jsonwebtoken, the identity providers, JSON, the random source, the mail
--   queue, the SMS gateway, the push provider, the bucket's client, sharp, the operator ILIKE and the
--   order of names by locale are parameters. What a theorem relies on is a named hypothesis: Laws of
--   a Redis server, TableLaws of a table, JsonLaws of JSON, TellsPrefix and ReadsPrefix of bcrypt
--   (it reads 72 bytes), ReadsOne of JWTs (the claims stand in the token), LikeLaws of ILIKE,
--   SignsAlike of the storage port (what it does at one moment). Shared.Redis.Memory and
--   Shared.Table.Listed satisfy the first two, and Auth.Tests.Sample has the others of Auth. The
--   clock and every random draw are read off `moment`, a number that grows with each such call.
--
-- Bounds and fuel
--   Ids, counters, lifetimes and dates are natural numbers; an id is a 53-bit integer in the source and
--   no operation computes one. `chunks` runs on fuel: the number of recipients, which is enough where
--   the chunk size is positive (enqueue_broadcast_lem needs it; the configuration's schema demands it).
--   `decimal` runs on the number itself. `redact_sensitive` runs on the number of objects and one, since
--   a path of its recursion meets no object twice (redact_snapshot_lem shows that it is enough).
--
-- Limits of the model
--   A command of Redis or a query that rejects is not modelled, except an insert that a unique index
--   refuses. The order in which a table returns its rows is its own order. A key of Redis holds a
--   value and a counter apart, since the program uses no key as both; keys expire by a command only.
--   The lower case of a string outside ASCII is a parameter. The interleaving of requests is not
--   modelled: each method is one step, a write that the cache does not await counts as done, and the
--   calls of one `mapWithConcurrency` are steps of its workers, in any order, in Shared.Concurrency
--   and run in the order of the items elsewhere. A value that is audited is built of strings,
--   numbers, Booleans, arrays and objects; a Date is an object with no entries, as the program's
--   loop over its entries sees it. A message with parameters looks a key up among them alone, not
--   among the properties that every object inherits. Log lines, decorators, validation of DTOs and
--   module wiring are left out, and so are the sink that writes the audit's rows, the envelope of
--   answers, the time zones, the health checks, the gateways of events, the mail templates and the
--   todo template.
pub mod Base
pub mod Auth
pub mod BugReports
pub mod Consent
pub mod Countries
pub mod Mail
pub mod Media
pub mod Notifications
pub mod Shared
pub mod Sms
pub mod Storage
