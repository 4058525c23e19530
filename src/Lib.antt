-- ===== src/Lib.antt =====
-- A model of qemu-agent: its chat sessions, the security of its tools, and its modeling pipeline, which
-- drives a device model for QEMU through five stages (plan, extract, infer, emit, verify), and proofs of
-- what they promise.
--
-- The parts of internal/modeling and their files:
--   type.go      Modeling/Types, Names, StageMap and Project. A project is a record; each method on
--                `*Project` is a function to a new project or an error. ParseStage is `parse_stage`,
--                shortCategory is `short_category`, record is `record_refs`, and so on. Project/Valid
--                has the invariant behind Validate, Project/Reach the projects that the methods can
--                produce, Project/Shape their references, Project/Frame what identifies them.
--   regir.go     Modeling/RegIr, over the machine integers of Modeling/Ints: the register
--                description that a model produces, and its validation. RegIr/Sound and Sound/Space
--                are about accepted descriptions. RegIr/Prose is Normalize and
--                OpenQuestions, with its proofs in Prose/Bounded.
--   store.go     Modeling/Store: the index and the files of FileProjectStore. A method is one step,
--                as the lock makes it. Store/Safe, Store/History and Store/Access have the proofs.
--   pipeline.go  Modeling/Classify (classify), Modeling/Steps (the steps that need no artifact store)
--                and Modeling/Pipeline (Advance, persist, fail, Read). A run is a
--                function of the project store, of an artifact store and of an environment: the
--                context's error at each store call, the clock at each reading, and whether each write
--                succeeds. Pipeline/Registered has NewPipeline's registry; Pipeline/Commits,
--                Inputs, Live, Outcome and Finished have the proofs.
--   stage.go     its data types and the interface of an artifact store, in Modeling/Steps. The law that
--                the proofs of the pipeline use is in Pipeline/Commits.
--   artifacts.go Modeling/Artifacts: FileArtifactStore over the paths and files of Files. What the host
--                answers (digests, ids, the clock, whether a call succeeds) is the record `Host`, so
--                each way a system call can fail is a branch; a random id is a function of the number
--                of the call, and the manifest is a file of lines. Artifacts/Staged and Kept are about Stage, Committed about Commit, Forged
--                about what checkBatch accepts; Modeling/Names/Plain is about the names that the
--                textual gates accept. Pipeline/Stored puts the pipeline on this store.
--   apply.go     Modeling/Apply: the plan of a landing and its validation; Apply/Safe is about the paths
--                that it accepts, with Files/Relative on path.Clean.
--   applier.go   Modeling/Applier, from the manifest (stage_emit.go) to a plan, and Applier/Landing, from
--                the plan to the written files and the recorded outcome. The tree is a map of files; what
--                the system answers about symbolic links and unreadable paths is a `Site`, one when the
--                plan is made and one when the writes are prepared, and the two phases read the tree
--                separately, so that others may edit it in between. The write tool is any function of
--                the number of the call; what the proofs rely on is `IsWriteTool` in Applier/Course.
--                Applier/Prepared, Course, Kept and Recorded have the proofs. Applier/Tool is the tool of
--                the program, with its proof of IsWriteTool: internal/tools/builtin/write.go and path.go
--                under the adapter internal/app/build/build_modeling_tools.go and the executor. Whether a
--                system call succeeds, and what a failed write leaves, is in `WriteHost` and `ToolHost`;
--                a target is an absolute clean path, and `Fits` says which paths and contents JSON carries,
--                as it does text in UTF-8. Applier/Wired puts the applier on this tool.
--
-- The chat sessions, internal/session, which the modeling conversations run in:
--   session.go   Session, with the message types of internal/llm/provider.go and NormalizeModelRef of
--                internal/llm/model.go. Session/Projection is about ReplaceToolResult.
--   registry.go  Session/Registry, over any session store. A method is one step, as the lock of a key's
--                entry makes it, and a callback is a function on the live session that may change it also
--                when it fails. Registry/Isolated is about other keys, failures and Reset, Registry/Sound
--                and Reached about every registry that the methods can produce.
--
-- The security of tool calls, internal/tools/security, which every write of the applier goes through:
--   policy.go and bash.go
--                Security/Policy: the decision about a call, with the bash analyzer on a decoded command.
--   executor.go  Security/Executor: the approval, the audit events and the call of the tool, over any
--                world that tools change. Security/Authorized and Security/Ran have the proofs.
--
-- The memories that a user approves, internal/memory and internal/app/commands_knowledge.go:
--   types.go, normalize.go, sanitizer.go, fingerprint.go, keyword.go
--                Memory: the items and queries; Memory/Words: normalizeText and tokenize, over the tables
--                of package unicode, with Words/Tokens and Words/Normal. Memory/Items is normalizeMemory;
--                Memory/Vetted and Hidden are about what it accepts and who sees it.
--   store.go, search.go, ranker.go
--                Memory/Index: FileStore over the index and the files of its directory, a method being
--                one step. Memory/Reload is loadExisting, Memory/Recall is Search. Index/Sound, Kept,
--                Saved and Duplicate are about Save, Reload/Held about every store that the methods
--                reach, Recall/Ranked about Search.
--   candidate.go Memory/Review: the proposals that wait for an approval, with Review/Settled,
--                Reached and Overdue.
--   commands_knowledge.go
--                Memory/Approval: the approval and the rejection of a proposal, with Approval/Stored.
--
-- The conversations that drive the pipeline, internal/modelingapi and internal/modelingworkflow:
--   validate.go, request.go, context.go
--                Api: identifiers, texts, sources and calls, and their checks.
--   view.go, capability.go, error.go
--                Api/Views: what the service answers, and the checks of it. Api/Requests has the other
--                requests, the pages and the preview of an apply.
--   binding.go, file_store.go
--                Workflow has the binding of a conversation to its project, Workflow/Bindings its store,
--                with Bindings/Once.
--   continue.go, artifact.go
--                Workflow/Turns: what a turn is made with, and the review of a diff, over any service
--                (Services) that answers from a state of its own. Workflow/Advance:
--                advanceUntilBoundary. Advance/Presented and Bounded have the proofs.
--   start.go     Workflow/Start.
--   controller.go
--                Workflow has the presentations, Workflow/Input has continueGuard and provideInput,
--                and Workflow/Handle has Handle, with Handle/Bounded. The interpreter and the presenter
--                are functions that may change the world.
--
-- The configuration, internal/config (config.go, validate.go, modeling.go): Config has the groups that
-- the knowledge and modeling capabilities read and their checks, Config/Disjoint is about their
-- directories.
--
-- Conventions. A Go string is the list of its bytes (Text), and the functions of package `strings`
-- are those the program calls. A time is its distance from the zero time, with 0 for IsZero. `int`
-- and `uint64` have 64 bits, and sums and differences wrap as in Go wherever the program could
-- reach the bound. A map is an association list; where the program ranges over a map, only the
-- choice of an error among several depends on the order. An error keeps the sentinels that `%w`
-- wraps, which is all that `errors.Is` reads, and not its text (elsewhere than in Modeling, one that
-- wraps none keeps the constant part of its text); the error of a failed run is its
-- cause, which the program wraps. Clone is the identity, since values are not shared. The id source
-- is a function of the attempt, of which generateID makes at most eight; the loop of clampText
-- counts down from the limit, `%d` has a step for each unit of its number, which are more than it
-- has digits, and every other loop is over a list or over the elements of a path, so nothing else
-- needs fuel. A stage runner is a total function: the stage timeout is one of its errors.
--
-- Not modelled: the stage runners themselves, the code renderers, file and JSON handling, logging,
-- the session history (internal/session/history.go), the extraction of memories from a conversation
-- (internal/memory/extract.go), the text of the workflow's replies and mapModelingError, and the
-- packages around these (agent, modelingagent, the built-in tools other than write, channels, and
-- the other groups of the configuration).
pub mod Common
pub mod Config
pub mod Text
pub mod Files
pub mod Modeling
pub mod Session
pub mod Memory
pub mod Api
pub mod Workflow
pub mod Security
pub mod Tests
