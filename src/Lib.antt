-- ===== src/Lib.antt =====
-- Certiva: a registry of academic credentials. The API (apps/api, NestJS over PostgreSQL with Prisma)
-- verifies credentials for the public, keeps accounts and writes an audit log; it puts anchoring
-- jobs on a Redis queue that the worker (apps/worker) takes and settles with a contract on Polygon
-- Amoy. This library models those services as functions on the rows of their tables.
--
-- What models what:
--   Prelude, Text      tests, lists, results; JavaScript's trim, toLowerCase and hex patterns (ASCII)
--   Registry           the rows of apps/api/prisma/schema.prisma that the services share
--   Blockchain         apps/api/src/modules/blockchain/blockchain.service.ts: reading a proof from the
--                      chain (`read_proof`) and the on-chain status (`Verify.verify_record`)
--   Assets             the addresses of apps/api/src/modules/credential/credential-assets.service.ts
--   Verification       apps/api/src/modules/verification/verification.service.ts: statuses, trust checks
--                      and the recording of verifications here, the endpoints in `Lookup` (`verify`),
--                      `Reference` (by any public reference), `SecurePdf` (PDF integrity) and `Export`
--   Anchoring          the lifecycle log, `Queue` for
--                      apps/api/src/modules/blockchain/blockchain-queue.service.ts, `Chain` for
--                      apps/worker/src/lib/blockchain.ts, `Worker` for
--                      apps/worker/src/jobs/credential-anchor.ts
--   Audit              apps/api/src/modules/audit/audit-log.service.ts: canonical JSON and entry hashes
--                      here, `Chain` for the verdict and the writer
--   Auth               apps/api/src/modules/auth/auth.service.ts: `Login` with
--                      apps/api/src/common/strategies/jwt.strategy.ts, `Manage` for the accounts,
--                      `Access` for apps/api/src/common/guards/roles.guard.ts and
--                      apps/api/src/common/http/resolve-client-ip.ts
--   Institution        apps/api/src/modules/institution/institution.service.ts
--   Csv                apps/api/src/modules/credential/credential.bulk.utils.ts, `Line` for one line of it
--   Lifecycle          apps/api/src/modules/credential/credential.service.ts: its state (`Registrar`) and
--                      its services (`Tools`) here, the texts that are hashed and signed in `Payload`,
--                      `create` in `Issue`, `revoke` and `bulkRevoke` in `Revoke`, `remove` and
--                      `bulkDelete` in `Delete`, PDF registration in `SecurePdf`, `bulkIssue` in `Bulk`;
--                      `Steps` puts them together with the verifications and the worker, as the
--                      relation of what these calls do to the registry
--   Signing            apps/api/src/common/signing/signing-key.service.ts, with the audit log of `Audit`
--   RateLimit          apps/api/src/common/rate-limit/rate-limit-memory.store.ts, and the choice of the
--                      store in rate-limit.service.ts beside it
--   Fixtures           concrete rows for the tests, which stand in a module `Tests` per part
--
-- A table is the list of its rows in the order of the query; `findFirst` is `find_first`, and an
-- update names the rows by its where clause. State is passed explicitly, an exception is the `err` of
-- a `Result` with its message, in `Lifecycle` the `throws` of an `Attempt` beside the state that was
-- written before it. Times and chain numbers are natural numbers. Names are those of the
-- source in snake case.
--
-- Arguments stand for what the repository does not contain: the chain node and viem (`Rpc`), the queue
-- (`Add`), the Redis store of rate limits (`Remote`), Ed25519 and SHA-256, bcrypt and the signing of
-- tokens, the provider's key pairs, the clock and the random draws, and built-in functions such as the
-- printing of JSON values and dates. So do the services around the credential service that are not
-- modelled: the storage of assets, the reading of PDFs and `signCredential`. An operation of
-- `Lifecycle` takes them as `Tools`, which answer as they like at each call; a bulk operation takes a
-- `Tools` per round. No law is assumed of any of them.
--
-- Every loop is structural recursion on a list or a text, so no fuel is used.
--
-- Not modelled: the listing of credentials and the repair of assets, the module of secure document
-- proofs, the headers of rate limits, the signing and assembling of verifiable credentials, the
-- API's own chain writes, the contract (Solidity), the web application, and configuration, routing,
-- validation of requests, log output and file storage around the services. Transactions commit, save
-- in the bulk operations where one may fail as a whole, and operations on one table run one after the
-- other.
pub mod Prelude
pub mod Text
pub mod Registry
pub mod Blockchain
pub mod Assets
pub mod Verification
pub mod Anchoring
pub mod Audit
pub mod Auth
pub mod Institution
pub mod Csv
pub mod Lifecycle
pub mod Signing
pub mod RateLimit
pub mod Fixtures
