-- ===== src/Lib.antt =====
-- EYENET: what its core promises about evidence, discovery and delivery.
--
-- EYENET watches sources through a fleet of collectors, moves what they see over a bus of
-- subjects, classifies documents by sensitivity, keeps evidence and its audit trail in a database,
-- and decides which groups to join next. Each part below is one folder of modules; a definition
-- has the name of the function, method or type of the program that it translates.
--
--   Tier          the sensitivity tiers and their maximum (eyenet/contracts/enums.py,
--                 eyenet/classifier/ruleset/_types.py), which the classifier and the storage share
--   Bus           subject patterns and the in-memory bus (eyenet/bus/subjects.py, memory.py)
--   Classifier    Redact, Ruleset, Presidio, Verdict, Aggregate, Merge: the regex stage, the PII stage,
--                 their aggregate and the advice of a language model (eyenet/classifier)
--   Storage       Audit, Evidence, Clearance: audited writes on tiered evidence and on clearance grants
--                 (eyenet/storage/sqlmodel_repo), over the tables of Storage/Table
--   Discovery     Candidates, Lineage, Approval, Scores, Eligibility: the state machine of group
--                 candidates, their score and the gate that a collector passes before it joins
--                 (eyenet/storage/sqlmodel_repo/candidates.py, cases.py,
--                 eyenet/services/discovery/eligibility.py)
--   Cases         the life cycle of cases, their edits, members and collaborators, and the tier that
--                 members give a case (eyenet/storage/sqlmodel_repo/cases.py)
--   Journal       Chain, Framing, FileAccess: hash chains with their append and their walks
--                 (eyenet/contracts/audit.py, eyenet/storage/sqlite_repo/repository.py,
--                 eyenet/api/v1/audit/api_verify_audit.py), the strings that are signed and hashed
--                 (eyenet/crypto/_file_access_signing.py), and signing keys, nonces and the journal of
--                 file accesses (eyenet/storage/sqlmodel_repo/file_access.py)
--   Linker        Crews: the union-find that clusters actors (eyenet/linker/crews.py)
--   Fleet         the collectors' identities, their leases, graduation and quarantine, who saw a message
--                 first, and the supervisor of collectors (eyenet/storage/sqlmodel_repo/identities.py,
--                 memberships.py, eyenet/services/discovery/scout_graduation.py,
--                 eyenet/services/collector_supervisor.py)
--   Api           the rate limit of requests, the idempotency keys and the scopes of an operator
--                 (eyenet/api/middleware/rate_limit.py, idempotency.py,
--                 eyenet/storage/sqlmodel_repo/idempotency.py, eyenet/api/auth/_permissions.py)
--   Common        lists, filters, dictionaries, sorting and text order, shared by all
--   Tests         each result at a concrete input, and small runs
--
-- The parts meet as in the program: the stages of the classifier give floors to `aggregate`, whose
-- tier is what `settle_document_classification` writes and `reclassify_document` may raise;
-- eligibility reads the candidates' store, the cases and the scouts of the fleet; quarantine parks
-- a candidate through `transition_candidate`; the scopes of a request are the baseline of its role
-- with the active clearance grants; the tier of a case is read off the evidence tables that
-- reclassification writes; an access appends to the chain whose walk the audit endpoint answers
-- from.
--
-- How code becomes definitions. A stateful method takes its state and returns its reply with the
-- new state; an exception is an error value. A database table is a list of rows under their keys,
-- and a commit that a table's check refuses is an error that leaves the table. A method is one
-- step; the sightings of a message and the graduation of scouts are one step for each of their
-- transactions, which others may come between. UUIDs, times and the fresh ids of new rows are
-- natural numbers that come from outside; so does whether the audit database takes a row. Texts
-- that are formatted for a reader are kept as what they are made from. Scores are floats of which
-- only the order is used: they are their bit patterns, and the weighted sum of a candidate's score
-- is a parameter. The supervisor's power of two, a float as well, is a natural number, and raises
-- where the float overflows. Python's sort is an insertion sort, which is stable too. Parameters
-- stand for what is not in the repository: the matches of a compiled re2 pattern, the NFC
-- normalization of a text, the weighted float sum, the digest of a request, the hash of a chain's
-- row, the fingerprint and the signature check of the cryptography package, the reading of a
-- timestamp, the JSON library and the application behind the middleware. Every loop is a structural
-- recursion over the list that the code walks, but for the two attempts of a reservation, which the
-- code counts as well, and for the two loops of the union-find, which run on fuel: n edges need at
-- most 2^n, the bound `deepest`.
--
-- Not modelled: the paged listings, the request and reply of the bus, the bus over NATS, the jail
-- and the parsers of the classifier, the calls to language models, the decoding of curve points,
-- the HTTP handlers, concurrent requests under one key, the dispatch of joins and backfills, the
-- collectors' platform code, the linker beyond its union-find, the graph, the verifier, the
-- stylometric sensors, the front end, and the migrations: they are input and output, third-party
-- libraries, or parts that are left for an extension.
pub mod Common
pub mod Api
pub mod Bus
pub mod Tier
pub mod Classifier
pub mod Storage
pub mod Discovery
pub mod Cases
pub mod Fleet
pub mod Journal
pub mod Linker
pub mod Tests
