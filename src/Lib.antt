-- ===== src/Lib.antt =====
-- iwut-app-center: the service in which developers register applications, have their versions
-- reviewed, publish them to test, grey and stable slots, and say by a filter who may see them.
--
-- The parts and the files that model them:
--   Shared               internal/shared: identities of applications and callers, the UUIDv7 test;
--                        Shared/Utf8 is Go's reading of a string as code points, Shared/Sorting its sort.
--   Publication          internal/publication/domain: a publication's three slots (test, grey, stable),
--                        the candidates that check a request, the commands that change a slot and the
--                        audit record each change leaves. Place, Stable, Clear, Rollout and Grey hold the
--                        commands, Cohort the hash that picks the users of a grey rollout.
--   Filter               internal/filter: the tree of rules on profile fields (Filter/Rule, Filter/Date),
--                        the numbered revisions of an application's filter (Filter/Revision) and the
--                        usecases Get, Set and Clear (Filter/Handlers).
--   Review               internal/review: what a review is about (Review/Snapshot), policies and
--                        decisions (Review/Decision), the review and its commands (Review/Attempt), what
--                        they make of the version (Review/Candidate), and the usecase in which a reviewer
--                        decides (Review/Decide).
--   Version              internal/version/domain: labels (Version/Label), the RPC API range, the names of
--                        capabilities and scopes with their order (Version/Names), the launch URL
--                        (Version/Urls), the redirects (Version/Redirects), the version from its draft on
--                        (Version/Draft), the record of a draft that was removed (Version/Abandonment) and
--                        what the repositories of internal/adapter/mongo write into a version that is
--                        submitted or decided on (Version/Reviewed).
--   Catalog              internal/catalog: names and sets of capabilities (Catalog/Names, Catalog/Sets),
--                        the descriptor of a launch (Catalog/Launch), resolving one (Catalog/Resolve), the
--                        checks of the public catalog (Catalog/Public); and its pages with their cursors,
--                        internal/adapter/mongo/public_catalog_repository.go (Catalog/Pages).
--   Profile              internal/profile/domain: texts (Profile/Text), a revision of the profile
--                        (Profile/Revision), its submission and review (Profile/Review) and the decision
--                        (Profile/Decide).
--   Tester               internal/tester/domain: links to join by (Tester/JoinLink) and memberships
--                        (Tester/Membership).
--   Application          internal/application: names (Application/Name), the application and its
--                        administrator's quota (Application/Aggregate), and its closure
--                        (Application/Closure).
--   Prelude              the lists, options, results, integers and texts that all of them use.
--
-- How the code corresponds: a struct is a record, an enumeration a data type (with one case for any
-- other text where the code can meet one), a `(value, error)` pair is a Result, a pointer that may be
-- nil and a slice that may be nil are Options, a string is the list of its bytes. A method that
-- changes its receiver answers with the receiver as it is afterwards; copies are the values
-- themselves. int32 and int64 are integers, and their increments wrap at the largest value. Loops
-- are recursion on the list they walk, so that no fuel is needed; only the client that follows the
-- tokens of the catalog (Catalog/Follow) has fuel, and more than the publications are many is
-- enough. A time is an instant and whether its location is UTC.
--
-- Parameters: SHA-256 in Publication/Cohort; the repository, the clock and the generator of ids in
-- Filter/Handlers and Application/Closure, where the store is a state that the operations pass on; the
-- services that Review/Decide and Catalog/Resolve ask; in Catalog/Pages the codec of the cursors and
-- what catalogItem answers for each publication; in Version/Urls what net/url and net find in a text;
-- in Profile/Text the tables of Unicode. The repository of the filters keeps the time of a publication at
-- its own precision, which is a parameter, too (Filter/Kept). What a parameter is relied on for is stated
-- by name (Keeps, Finds, ReadsBack), and a concrete one has it.
--
-- Not modelled: the other adapters (MongoDB, HTTP, Auth, preflight), the wiring of the process, the text
-- and the cause of an error, and the parts of internal that are not named above.
mod Prelude
pub mod Shared
pub mod Publication
pub mod Filter
pub mod Review
pub mod Version
pub mod Catalog
pub mod Application
pub mod Profile
pub mod Tester
