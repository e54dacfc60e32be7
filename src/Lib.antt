-- ===== src/Lib.antt =====
-- TalentTrust backend: a freelancing platform's HTTP service over an escrow contract. Requests
-- pass authentication (with an account lockout) and authorization (a permission matrix) and reach
-- services over in-memory or SQL stores: disputes, milestones, contracts, reputation. Calls to
-- other services go through circuit breakers, and an indexer ingests the contract's events.
--
-- The files, and the code each is about:
--   Prelude, Prelude/*       the names shared by all files; maps with text keys, stable sorting,
--                            calls that return a value or an error
--   Breaker, Breaker/*       src/circuit-breaker/CircuitBreaker.ts and registry.ts:
--                            a breaker as a record, one function per method; a call is the pair of
--                            its start and its settling, so that overlapping calls are sequences
--                            of these steps; the registry is a map from name to breaker
--   Lockout, Lockout/*       src/auth/accountLockout.ts: the record of an account and the map of
--                            all records; assess, recordFailure, recordSuccess, sweep and the
--                            loading of the settings
--   Authorization, Authorization/*
--                            src/lib/authorization.ts: the matrix as tables of tables,
--                            isAuthorized, and the flat list of permissions
--   SoftDelete, Escrow       src/utils/softDelete.ts and src/hooks/escrow.hooks.ts
--   Disputes, Disputes/*     src/services/disputes.service.ts: the store as a map, the status
--                            machine, updates, soft deletion, restoring, purging and batches
--   Envelope, Events, Events/*
--                            src/shared/eventEnvelopeValidation.ts and src/contracts: validation,
--                            keys, the repository and processor of events, the indexer over
--                            batches and its checkpoints
--   Limiter, Limiter/*       src/middleware/rateLimiter.ts, on what src/lib/rateLimitStore.ts
--                            keeps for one key: windows, violations and blocks, and the sweep of
--                            the store between requests
--   Milestones, Milestones/* src/contracts/bounds.ts and src/services/milestones.service.ts: the
--                            checks of amounts, and the operations on the store of milestones
--   Poller, Poller/*         src/services/TransactionPoller.ts and the in-memory store of
--                            src/models/Transaction.ts: the polling of a transaction
--   Audit, Audit/*           src/audit/store.ts and types.ts: the append-only log, its queries by
--                            offset and by cursor, and the verification of its chain of hashes
--   Auth, Auth/*             src/services/auth.service.ts on the table of users: registration,
--                            login, refreshing and logout; Auth/Sessions is the abstract service
--                            that Auth/Refinement compares with it
--   LoginRoute, LoginRoute/* src/routes/auth.routes.ts: the handler of a login, over the service and
--                            the lockout
--   Reputation, Reputation/* src/services/reputation.service.ts and
--                            src/repositories/reputationRepository.ts: creating ratings, one by one
--                            and in bulk, with their audit entries
--   Webhooks, Webhooks/*     src/services/webhook.service.ts and, in Webhooks/DlqStorage,
--                            src/queue/webhook-dlq.ts: deliveries with retries, the dead letters,
--                            and their replay
--   Contracts, Contracts/*   src/repositories/contractRepository.ts: the repository over the database
--                            and the one in memory, on the same table by id
-- Each component's file has the definitions; its children have the theorems, and its Tests runs
-- them at concrete inputs.
--
-- Conventions. Classes are records and their methods functions from state to state; a method that
-- throws returns a result. Clock readings and fresh ids are arguments. Times, counts and settings
-- are natural numbers; dates are invalid or natural. Where code awaits between a check and the write
-- that relies on it, the two are functions of their own, and their composition is the call that
-- nothing else overlaps (the updates of Contracts, the additions to the dead letters). Code outside the repository is a parameter:
-- digests, signatures, normalising of emails, trimming and parsing of text. The loops are
-- recursions on lists or, for the attempts of a delivery, on the number of those left; the polling
-- loop alone runs on fuel, for which the number of retries left is shown to be enough.
--
-- Not modelled: Express glue, the other middleware, the other SQL repositories, queues, metrics,
-- logging, the network and the user interface, since they are input and output or calls of
-- libraries; scores and profiles of reputation, which are computed in floating point; and the
-- creation, the lists and the pages of contracts. Of the names that JavaScript objects inherit, only
-- those that stand for a role of a request are modelled.
pub mod Prelude
pub mod Breaker
pub mod Reputation
pub mod SoftDelete
pub mod Webhooks
pub mod Escrow
pub mod Contracts
pub mod Disputes
pub mod Audit
pub mod Auth
pub mod Authorization
pub mod Envelope
pub mod Events
pub mod Limiter
pub mod Lockout
pub mod LoginRoute
pub mod Milestones
pub mod Poller
