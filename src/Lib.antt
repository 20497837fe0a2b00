-- ===== src/Lib.antt =====
-- The model of Caelis Memory, a memory service for agents: a host stores receipts of text in Spaces
-- (Remember) and reads them back within a budget (Recall), under capabilities that an issuer derives
-- from grants on Views.
--
-- The parts, and how they interact:
-- - Text: Go's strings as lists of bytes. Text.Utf8 reads and writes runes, Text.Strings has what is
--   used of `strings` and `unicode`, Text.Json the lengths that `encoding/json` writes, Text.Decimal
--   `%08d`, Text.Base64 the URL-safe encoding without padding.
-- - Labels: `CanonicalLabelSet` of api/memory/v1alpha1/labels.go, which fixes the exact partition of a
--   capability.
-- - Requests: the data-plane requests of api/memory/v1alpha1/types.go and their `Validate` methods in
--   api/memory/v1alpha1/validate.go.
-- - Projection: `fitProjectedText` and `projectedRecallSize`, which internal/reference/server.go and
--   internal/appliance/dataplane.go both hold.
-- - Reference: the service of internal/reference. Types and State hold its data and the `Server`;
--   Config has `CreateRealm`, `CreateIdentity`, `CreateSpace`, `CreateView` and `CreateGrant`; Issue has
--   `CreateIssuerAuthorization`, `IssueCapability` and `RevokeGrant`; Authorize is `authorizeLocked`;
--   Remember and Recall are the calls of the data plane, `GetReceiptStatus` with Recall. A call of the
--   data plane begins with the checks of Gates, is authorized by Authorize, and then reads or writes the
--   receipts. Machine runs all of them as commands, one after another; Authority is what holds of the
--   administrative state after every history.
-- - Facts: the requests of api/memory/facts/v1alpha1/types.go and the checks of validate.go beside it,
--   which use Requests for the evidence and Labels for a policy.
-- - Steward: profiles and proposals of api/memory/steward/v1alpha1/types.go with their checks.
-- - Appliance: `authorize` of internal/appliance/config.go on the rows of the database, with the labels
--   that internal/appliance/labelset.go decodes. Appliance.Stored says how the tables hold Spaces and
--   labels, and Appliance.Refines compares `authorize` with Reference.Authorize.
--   Appliance.Merge is `mergeRecallCandidates` of internal/appliance/semantic_recall.go, which joins what
--   the lexical and the semantic index of the appliance find for a Recall.
-- - Facts.Store, Facts.Timeline, Facts.Lifecycle and Facts.Apply: the facts that the appliance keeps.
--   `factTimeline` of internal/appliance/facts_read.go derives the history of a record, and
--   `applyFactMutation` of internal/appliance/facts_lifecycle.go makes one edit in a View that Appliance
--   has authorized, with the guards in Lifecycle and what it writes in Apply.
-- - Steward.Jobs: how a Worker's failure releases a job, `FailStewardJob` and `ReportStewardFailure` of
--   internal/appliance/steward_jobs.go, on the rows of the tables. Steward.Jobs.Claim
--   is `ClaimStewardJob`, which sweeps expired and forgotten jobs (Steward.Jobs.Sweep), leases the
--   first that waits, and cuts its request to size (Steward.Jobs.Request).
-- - Backup: `Encrypt` and `Decrypt` of internal/backupfile/format.go, the container of a backup.
-- - Management: the owner's requests on receipts in api/memory/management/v1alpha1.
-- - Tests: concrete runs.
--
-- How the code is modelled:
-- - A Go function that returns an error and changes nothing when it fails returns `Result`. A method of
--   the data plane takes the server and returns an outcome with the server after it, since its service
--   errors count up the request number also when it fails.
-- - Locks make each call one step here: Remember holds its lock from the authorization to the commit.
--   Recall drops it after the snapshot; what follows reads the snapshot only.
-- - A context is the number of checks that it still passes; any such number may be given, so a theorem
--   for all of them covers every deadline. The test hook `recallStep` is left out.
-- - The clock and the random source are arguments of the calls that read them, one for each reading.
-- - An instant is a number of nanoseconds since the year 0, without an upper bound, so that adding to
--   one does not overflow. The counters of type uint64 and the retry delay of type int64 wrap around.
-- - A map of extension labels or of context values is the list of its entries, in the order of a loop.
-- - `json.Marshal` of a request and SHA-256 are the parameter `Digests`, `strings.ToLower` the parameter
--   `to_lower`, the hash of a lease token the parameter `digest`, the reading and writing of stored
--   labels the parameter `Codec`. Of these only `Codec` has a law, `IsCodec`: `json.Unmarshal` reads back
--   what `json.Marshal` wrote of canonical labels. AES-GCM is the parameter `Aead`,
--   of which `IsAead` states that opening undoes sealing and how long the output is. What a claim reads
--   for a job, and the length of the encoded request, are arguments of the claim.
-- - A transaction of SQLite is one step that leaves the rows as they were when it fails; that the
--   database itself fails is left out. A time in a column that is compared with the clock is the
--   instant; `created_at` of a job, which orders the jobs as a text, is a text.
-- - Strings with named constants are data types with one constructor for any other string.
-- - The loop of `fit_projected_text` runs on fuel, one more than the number of runes; the theorem on it
--   shows that this is enough. The digits of a number are written on fuel, one more than the number,
--   and are read back as the number in Text.Decimal. The loops of a backup run on fuel, one more than the
--   number of bytes of their input: each round reads a byte or more, and Backup.Encrypt and
--   Backup.Decrypt show that it is enough. A claim cuts its request in one round more than the request
--   has candidates and records, which Steward.Jobs.Fit shows to be enough; it makes four attempts,
--   as the code does.
--
-- Not modelled: the rest of internal/appliance, which keeps the same contracts in SQLite: the rest
-- of its data plane, the ingestion and the selection of facts, the application of Steward proposals, the lexicon,
-- governance, and the files of the database; and of the container of a backup the document that holds
-- its key. Nor are the transports, the clients, the command-line tools and the release scripts, which
-- mostly do input and output.
mod Prelude
pub mod Text
pub mod Projection
pub mod Labels
pub mod Requests
pub mod Reference
pub mod Management
pub mod Facts
pub mod Steward
pub mod Backup
pub mod Appliance
mod Tests
