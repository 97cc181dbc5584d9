-- ===== src/Lib.antt =====
-- Warden Drydock: a campaign workspace whose content is upgraded in place by a command-line tool,
-- and published as immutable revisions by a hosted service.
--
-- The parts, and how they interact:
-- - A campaign directory is generated by warden_drydock/core/generator.py with a lock that records
--   the hash of every file, and upgraded by `upgrade_campaign` of warden_drydock/core/upgrade.py,
--   which compares the directory, its lock and a freshly generated directory.
-- - warden_drydock/hosted/ai keeps live sessions: devices capture events under the session's
--   controller, each with an order and an operation that may be sent again, until the session ends with
--   a barrier that names the operations it requires; and generations, into which a provider streams
--   events.
-- - warden_drydock/hosted/proposals keeps the versions of proposed changes, which are drafted,
--   corrected, rejected or approved; an approval stages the changes and publishes a revision through
--   callbacks.
-- - warden_drydock/hosted/revisions publishes a directory tree as a revision: canonical.py lists
--   and hashes the tree, store.py keeps the snapshot, repository.py keeps the publication intents
--   and the head of each campaign, and service.py runs them in order and repairs what a crash left.
--
-- - warden_drydock/standalone.py is copied into every campaign. It reads the Markdown records with their
--   heads and connections, refuses a graph that is not sound, and from an accepted one writes indexes and
--   a context for a language model, lists neighbourhoods, and creates records from templates.
-- - warden_drydock/hosted/projections rebuilds the Atlas projection of a published revision from the
--   snapshot store and the publication intents: its records and connections, read with the functions of
--   standalone.py, and its changes against the parent revision.
--
-- The files:
-- - Prelude and Prelude/: tests and equality on the native numbers, lists, dictionaries in insertion
--   order, results of calls that may raise, the stable sort, and texts as lists of codes.
-- - Identifiers: the identifier and digest patterns.
-- - Upgrade: core/upgrade.py. Upgrade/Cases, Upgrade/Plan and Upgrade/Copies have the lemmas on one
--   verdict, on the loop and on the copies, Upgrade/Safety and Upgrade/Rerun what a run and a second run do.
-- - Revisions/Models and Revisions/Checks: hosted/revisions/models.py. Revisions/Canonical:
--   canonical.py. Revisions/Repository: the in-memory repository of repository.py, with
--   Repository/Chain and Repository/Index for its invariants. Revisions/Store: store.py.
--   Store/Laws and Store/Withdrawn have what the store keeps. Revisions/Service and Revisions/Lineage:
--   service.py, with Lineage/Linear for the inventory, Service/Reach for sequences of calls,
--   Service/Storage for the store under them, and Service/Outcomes for the end of one call.
-- - Proposals/Models, Proposals/Digests, Proposals/Repository, Proposals/Queries, Proposals/Editor and
--   Proposals/Service: the data, the digests, the in-memory repository, its queries, its methods for
--   the editor, and the service of hosted/proposals/service.py,
--   with the exact text changes of hosted/engine/models.py. Proposals/Machine has the state machine of
--   a version, Service/Writes, Service/Approval and Service/Calls the writes of each call,
--   Service/Published the conditions of a publication, Proposals/Frozen and Proposals/Trail what
--   sequences of calls keep, Editor/Lasting what is kept when the calls of the editor are among them, and
--   Editor/Turns the workflow version.
-- - Live/Models and Live/Service: hosted/ai/models.py, the sessions of hosted/ai/repository.py, and
--   hosted/ai/live.py. Live/Consistent and Live/Steps have the lemmas on one call, Live/Reach the
--   sequences of calls, Live/Replay a call that is sent again, and Live/Barrier the end.
-- - Generations/Models and Generations/Dispatch: the generations of hosted/ai/models.py and
--   hosted/ai/repository.py, and `dispatch` and `resume` of hosted/ai/service.py. Generations/Terminal
--   has the events of a dispatched one.
-- - Sources: the source selector of hosted/ai/retrieval.py. Prepare: consent and `prepare` of
--   hosted/ai/service.py.
-- - Campaign/Text, Campaign/Json, Campaign/Frontmatter and Campaign/Connections: how standalone.py reads a
--   record, with Connections/Printed for the line that hosted/http/editor.py writes, Frontmatter/Laws and
--   Newlines for what is read. Campaign/Graph and Campaign/Rules: the graph and its acceptance, with
--   Graph/Collected and Rules/Accepted. Campaign/Related: `related_entities`, with Related/Within for the
--   walks and Related/Listed for the list. Campaign/Indexes, Campaign/Context, Campaign/Listing,
--   Campaign/Create and Campaign/Commands: the commands, with Indexes/Grouped, Indexes/Listed,
--   Create/Fresh and Commands/Kept for what they do. Campaign/Validate: `validate_campaign` by its parts,
--   the metadata, the settings, the records and the report, with Report/Passed for what passes.
-- - Atlas/Models, Atlas/Lineage, Atlas/Records, Atlas/History and Atlas/Rebuild: atlas_models.py and
--   atlas_rebuild.py of hosted/projections, with Lineage/Linear, Records/Ids, Records/Bound,
--   History/Differences and History/Reported for what they find, and Rebuild/Projected for what is
--   built from them.
--
-- How the code is read. A method takes the state and returns its result with the state that it leaves;
-- an exception is an error value beside the state at the raise. A function is a helper by clauses for
-- each block of the source, named for the block. `hashlib.sha256` and `json.dumps` are functions given
-- as parameters of which nothing is assumed, and a callback is given by what it returns or whether
-- it raises. The tree that `shutil.copytree` writes is an argument of its own, so that no theorem rests
-- on the source staying the same while it is copied, and whether the file system refuses a copy of an
-- upgrade is a parameter, so that the upgrade may stop at any of them. Dictionaries keep Python's
-- insertion order. Every loop is over a list, a text or a number of rounds; only the digits of a number
-- have fuel, one more than the number, which has no more digits than that. Python's `json.loads`,
-- `json.dumps`, `str`, `casefold` and `title` are parameters too, and so is the place that the file
-- system resolves a path to. Integers are Python's, which have no bound.
--
-- Not modelled: the SQL repositories, the JSON text of manifests, temporary directories, fsync and
-- rename, a directory that stands at a place that an upgrade manages, the rest of the HTTP
-- application, the loading of sources through the engine, the other projections with the queries and
-- the repositories of the Atlas, and the operational scripts.
pub mod Atlas
pub mod Campaign
pub mod Generations
pub mod Identifiers
pub mod Live
pub mod Prelude
pub mod Prepare
pub mod Proposals
pub mod Revisions
pub mod Sources
pub mod Upgrade
