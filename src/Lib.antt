-- ===== src/Lib.antt =====
-- jfrog-client-go: the client library for the REST APIs of JFrog's Artifactory and Xray.
--
-- The program turns a file spec (a pattern, a target with placeholders, properties, exclusions) into a
-- query in AQL, sends it, and works on the sorted results, which are kept in files of JSON records. The
-- parts modelled here are those that decide: how texts are parsed and rewritten, which query is sent,
-- which results are kept, and which folders are deleted.
--
--   Props         artifact properties: artifactory/services/utils/properties.go. `Properties` is the
--                 struct, `parse_and_add_properties` is ParseAndAddProperties, and so on by name.
--   Placeholders  parentheses of a pattern and placeholders of a target: utils/parenthesesutils.go.
--   Search        result items and the filters of a sorted search result:
--                 artifactory/services/utils/searchutil.go.
--   Delete        the folders that a delete may remove: artifactory/services/utils/deleteutils.go.
--   Merge         the k-way merge of sorted readers: utils/io/content/contentreader.go.
--   Sort          the sort of a reader by a calculated key, in the same file: buffers of bounded size are
--                 sorted and merged, and a record with a key that was there is dropped. Search/Reduce
--                 applies it and the filters, as ReduceDirResult does.
--   Retry         the retry executor: utils/retryexecutor.go.
--   Http          requests, uploads and downloads with retries, and a request's authentication:
--                 http/httpclient/client.go.
--   Download      the download of a file in concurrent chunks, in the same file: `Step` is the relation
--                 of the loop and the goroutines, one constructor for each thing that one of them does.
--   Archive       the extraction of a downloaded archive: utils/archiveutils.go.
--   Aql           a pattern's triples of repository, path and name:
--                 artifactory/services/utils/repopathfile.go.
--   Aql/Query     the parts of a query and its fields: artifactory/services/utils/aqlquerybuilder.go,
--                 with the parameters of artifactory/services/utils/specutils.go.
--   Aql/Body      the body for a pattern, with ParseNameAndVersion of
--                 artifactory/services/utils/artifactoryutils.go.
--   Aql/Builds    the queries for builds, packages and properties of aqlquerybuilder.go.
--   Builds        the items that belong to builds, the properties that are missing, and the builds inside a
--                 build: artifactory/services/utils/artifactoryutils.go.
--   Util          utils/utils.go and the small helpers of artifactoryutils.go.
--   Results       the results of transfers and of storage queries: resultutils.go and storageutils.go of
--                 artifactory/services/utils, with the splitting of paths of utils/io/fileutils/files.go.
--   Git           the url, the revision and the branch of a .git directory: utils/git.go.
--   Watch         an Xray watch's parameters and its body: xray/services/utils/watchbody.go, with
--                 UnpackWatchBody in Watch/Unpack.
--   Queue         the bounded queue of errors: utils/errorsqueue.go.
--   Base          what they share: Go's strings as lists of bytes and the functions of package strings,
--                 lists, signed numbers, and the results of calls that may fail or panic.
--
-- Aql/Body calls Placeholders, Props and Aql as the source does; Delete and the filters of Search
-- work on the same items; Delete reads what Merge merges; Search/Reduce sorts with Sort and then
-- filters; Http runs its requests with Retry, and a chunk of Download is such a request; Download
-- extracts with Archive; Builds parses the ids of modules with Aql/Body and works on the items of
-- Search; Watch sorts with the strings of Props.
--
-- Assumptions. Texts are valid UTF-8 and the characters that the code tests for are ASCII, so that a
-- loop over runes sees what a loop over bytes sees. A Go map is an association list whose order is
-- that of one iteration, or, where the code does not iterate over it, a function of its keys. A
-- content reader is the list of its decoded records, with the error of GetError beside it where the
-- code asks for it (Sort and Builds take readers without an error); writing a temporary file takes no
-- fault. path.Clean, path.Join, url.QueryEscape, strconv.Atoi, sort.Strings, sort.Ints and the
-- functions of package strings are written after Go's documentation; slices.Contains is the loop that
-- the source itself writes beside it. strconv.Itoa and the formatting of numbers are arguments of the
-- definitions that use them. A value of Go's interface{} in a watch is a value of its own type when
-- it is sent, and what encoding/json decodes when it is read. The retry executor's log lines are part
-- of its trace; all others are left out. The server of Download is a relation between a Range header
-- and what a chunk's download comes to, with what the code relies on in the record `Network`; the
-- merged file is a list of bytes, which ExtractArchive takes, and the library that reads archives is
-- the record `Archives`. The goroutines' writes of the shared variables are steps that do not
-- overlap. GetBuildInfo is a parameter of the aggregation of builds.
--
-- Bounds. Delete's loop runs on the fuel 2 * folders + artifacts + 1, Merge's on the number of
-- records + 1, and so does that of Sort; their theorems give a result for all readers that are sorted
-- (that of Delete asks more of the candidates and the artifacts), so the fuel is enough there. The
-- fuel of the aggregation of builds bounds the depth of its recursion, which the source does not
-- bound: it is to be above the rank of the build. Retry's loop runs at most MaxRetries + 1 times, as
-- the source's counter does. All other loops are structural. A number of the source is a ℕ where it
-- counts or indexes and a ℤ where the code lets it be negative; Atoi's bound of 64 bits is written
-- out.
--
-- Not modelled: net/http, the file system, the formats of archives, tokens and certificates, the
-- services that only build and send requests, and the managers that call one service each. Regular
-- expressions, which BuildTargetPath and the Ant patterns need, are not modelled either.
pub mod Base
pub mod Props
pub mod Placeholders
pub mod Search
pub mod Delete
pub mod Download
pub mod Git
pub mod Http
pub mod Merge
pub mod Sort
pub mod Results
pub mod Retry
pub mod Aql
pub mod Archive
pub mod Builds
pub mod Util
pub mod Watch
pub mod Queue
