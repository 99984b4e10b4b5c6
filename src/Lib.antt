-- ===== src/Lib.antt =====
-- blog-post: a blog platform, a FastAPI service over PostgreSQL.
--
-- The program. src/blogs/services holds the use cases, which run their statements through a unit of
-- work: src/blogs/repository/uow.py opens a transaction and hands out the SQL adapters of
-- src/blogs/repository, which write the tables of src/blogs/database/migrations. A use case raises
-- a `BlogPlatformError` of one of the categories of src/blogs/contracts/common.py, which
-- src/blogs/api turns into an envelope with a status. A change and the event that reports it are
-- written in one transaction, the event to the outbox.
--
-- The files.
--   Base      names of the libraries, Boolean tests, and the statements on a table: a table is a
--             list of rows, a row that is inserted comes to its front.
--   Errors    contracts/common.py `ErrorCategory`, core/errors.py `ERROR_CATALOG`, `raise_error`,
--             `to_envelope`, api/envelope.py `status_for`, `success`, `failure`, and
--             repository/base.py `translate_integrity_error`.
--   Policy    services/policy.py: `can q` is the method `can_q`, `require` is `require`.
--   Database  the rows and tables, and calls as functions from a world to a result and a world.
--             `begin` is a transaction: what it wrote stays if it ends normally, and is gone if it
--             raises. The number of draws made of the random sources is not taken back.
--   Repository  repository/identity.py, outbox.py, content.py, interaction.py and `append` and
--             `attribute_to_user` of engagement.py, a module for each class and a function for each
--             method. Keyset has the cursors of base.py and the page that three listings share;
--             its Order, Cuts and Walk are about a reader who follows the cursors.
--   Auth      services/auth_service.py. Service has the service's collaborators and internals,
--             Codes `request_otp` and `verify_otp`, Providers `complete_oauth`, Console
--             `admin_password_login` and `set_admin_password`, Rotation `refresh` and `revoke`,
--             History the sequences of requests. A method that leaves its transaction normally
--             and raises after it is a transaction that returns how it ended, and an `answer`.
--             The theorems on a group of methods are in the modules below it.
--   Worker    workers/outbox.py: `drain` is `_drain`, one pass of the relay. Batch and Claims are
--             about the rows it claims, Loop and Drain about what becomes of them.
--   Actors    services/actor_service.py: `resolve` and what it calls.
--   Interaction  services/interaction_service.py: the comments, and Markers, Shelves (collections)
--             and Pins. Threads, Places and Links say what the tables keep, Preserved and History
--             that every sequence of requests keeps it; Answers, Returns, Again and Saved are about
--             single requests, Pages about the listings.
--   Engagement  services/engagement_service.py `record` and `recent_views`.
--   Content   services/blog_service.py: publication, Updates and Reading. The objects of the store
--             are part of the world and outlive a transaction that is rolled back. Stamps, Links,
--             Preserved and History are about sequences of requests, Pages about the list, Visible
--             about drafts and slugs, Refused about an update that is refused.
--
-- The parameters. What ports/services.py declares (hashers, codecs, the mail provider, the
-- generator of ids, the clock) is a field of the record of its service or an argument, and so are
-- PostgreSQL's `lower(btrim(...))` and Python's operations on a header. What publishing an event
-- ends with and the random part of the backoff are fields of `OutboxWorker`. Ids, hashes and times
-- in microseconds are natural numbers, and so is a marker's ratio, in units of 2^-1074; what a
-- column of type real keeps of it is a parameter.
--
-- The bounds. The column of attempts at a code is a smallint, and a guess beyond 32767 is the error
-- that PostgreSQL raises. The relay's loop runs over its batch, and the search for a slug over the
-- fifty suffixes of the source. `read_all`, a reader who asks for page after page, is given a number
-- of pages: one for each row and one more are shown to be enough.
--
-- Not modelled. Two transactions never overlap: a transaction is one step, and row locks are left
-- out, but for the rows that `claim` of the outbox skips, which are a parameter. Among rows of the
-- same time the newest is the one nearest the front. The foreign key of a token's successor, which
-- is deferred to the commit, the check on the length of a password hash, the type inet, log lines,
-- correlation ids of the service's calls and safe_details are left out, and so is the range of the
-- outbox's column of attempts. Of a beacon, what it measures is left out. Contracts strip their
-- texts: that is modelled of the envelope of an error and of the body of an article, and not of the
-- other texts, which are taken as stripped. A code that is no ASCII text, at which the comparison
-- with the bypass code raises, is left out. The comparison of a cursor with a missing key follows
-- SQL's NULL, but for an id beside a time, which counts as reached at the same time. Left out
-- entirely are the worker's loop around a pass, announcements, the markdown parser, the token
-- codecs, the analytics queries, the HTTP layer, the settings and the migrator.
pub mod Base
pub mod Errors
pub mod Policy
pub mod Database
pub mod Repository
pub mod Auth
pub mod Interaction
pub mod Engagement
pub mod Content
pub mod Worker
pub mod Actors
