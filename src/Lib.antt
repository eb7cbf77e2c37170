-- ===== src/Lib.antt =====
-- The Caps meeting assistant: a server that records a meeting, transcribes it while it runs,
-- and afterwards turns it into a canonical transcript, notes and a report.
--
-- Parts and files. All paths are below server/app.
--
-- Session models the meeting session. Session/States holds its enumerations and value objects
-- (domain/shared/enums.py, domain/session/session_states.py) and the table of post-processing
-- transitions (domain/session/post_processing_state_machine.py). Session/Entity holds the entity
-- of domain/session/meeting_session.py with its fields and one function per method;
-- `start_running` and `end_session` are `start_meeting_session` and `end_meeting_session` of
-- session_state_machine.py. Session/Participants is
-- contexts/participation/domain/session_participant.py. Session/History calls the transitions in
-- any order, Session/Invariant, Session/Versions and Session/Links reason about them, and
-- Session/Participants/Names about the names.
--
-- Jobs models the three queues of background jobs. Jobs/Lifecycle is
-- domain/shared/job_lifecycle.py, Jobs/Model and Jobs/Kinds are the job models of domain/models:
-- one record with a payload for the columns that only one kind has. Jobs/Table is the table of one
-- kind and the SQL of its repository, infrastructure/persistence/postgresql/repositories/
-- postgresql_session_post_processing_job_repository.py with its helpers: a query is a function on
-- the list of rows, a method is one transaction. Jobs/Fence is workers/job_claim_fence.py, which
-- workers write through. Jobs/History runs services and workers against one table; Jobs/Table/*,
-- Jobs/Leases, Jobs/Fence/Safety and Jobs/Attempts reason about it.
--
-- Live models the live runtime below contexts/live_capture/application/audio/runtime. Live/Chunks
-- and Live/Context are contexts/live_stream_context.py with its helpers chunk_queue.py,
-- state_queries.py and state_transitions.py, Live/Policy is helpers/job_policy.py, Live/Claiming is
-- `claim_inference_job` of scheduler/helpers/job_flow.py. Live/History calls a context in any
-- order; Live/Delivery, Live/Bounds and Live/Readiness reason about it. Live/ReadyQueue is
-- scheduler/helpers/ready_queue.py, Live/Registry is contexts/live_stream_registry.py,
-- Live/Scheduler is scheduler/inference_scheduler.py, and Live/Service is
-- services/live_stream_service.py with the steps of a worker of workers/stt_worker_pool.py.
-- Live/Runs lets clients and workers act in any order on one runtime; Live/ReadyQueue/* and
-- Live/Attended reason about it. A method that does not suspend between its first and its last
-- change is one step; the loop of `next_job` takes one step in each pass, so no pass needs fuel.
--
-- Insight models the events of a meeting, contexts/insight. Insight/States is
-- contexts/insight/domain/event_state_machine.py with the enumerations of domain/shared/enums.py,
-- Insight/Events is domain/meeting_event.py, Insight/Repository is the table of events and its
-- queries (infrastructure/persistence/postgresql/repositories/events), and Insight/Service is
-- application/events/meeting_event_service.py and event_management_service.py. Insight/Merging,
-- Insight/Slots, Insight/Searches and Insight/Singles reason about merging.
--
-- Questions models the live questions, contexts/insight/application/live_questions.
-- Questions/Models and Questions/Payloads are models.py with `to_payload` and `from_payload`,
-- Questions/Json is the JSON between them and how Python reads it, and Questions/Board is
-- question_state_store.py. Questions/Titles, Questions/Boards, Questions/Sessions and
-- Questions/RoundTrips reason about them. The board stores events of Insight.
--
-- PostProcessing models the run of a post-processing job. PostProcessing/Utterances is
-- domain/models/utterance.py and the table of utterances,
-- PostProcessing/Builders and PostProcessing/Canonical are session_post_processing_builders.py and
-- session_post_processing_canonical_state.py of contexts/post_processing/application, and
-- PostProcessing/Runner and PostProcessing/Runs are session_post_processing_runner.py with the
-- enqueueing of contexts/reporting/application/jobs/note_correction_job_service.py.
-- PostProcessing/Dispatch is session_post_processing_dispatch.py, and PostProcessing/Restarts is the
-- recovery of one session of post_meeting_pipeline_recovery_service.py.
-- PostProcessing/World joins the tables of Session, Jobs and Insight that a run reads and writes.
-- The rest of PostProcessing reasons about runs, their ends and what they leave.
--
-- Alignment is contexts/live_capture/application/audio/pipeline/alignment/
-- stream_alignment_manager.py, Chunker is `_slice_section` of
-- contexts/knowledge/application/retrieval/chunking/markdown_chunker.py, and Reporting/Status is
-- contexts/reporting/application/jobs/helpers/final_status.py, about which Reporting/Completion
-- reasons.
--
-- Tests runs the models at concrete inputs, and Base holds the shared helpers.
--
-- How the code is read. Frozen dataclasses are records, and a method that raises returns a
-- `Result` (Base/Outcome). A method that mutates returns the new state. The clock, drawn ids,
-- Unicode case folding, the rows that other transactions hold, and the collation of ids are
-- arguments. An instant is a number; the code compares the ISO texts of UTC instants. A message of
-- an exception is left out, and so are log lines and monitoring. The loops are structural, but
-- for two: the retries of `save` of utterances have the three attempts of the code, and the loop of
-- Chunker has as much fuel as the text has characters, each turn moving on by one at least.
-- In PostProcessing, what other transactions do while a recording is transcribed is a function on
-- the tables, applied once before the claim is checked; what they commit around each insert of a
-- draft is a function on the rows, before the insert and before the next number is read. A step of
-- the storage that raises changes nothing; where the restoring of a run raises, the exception is
-- swallowed as in the code.
--
-- Not modelled: snapshots and monitoring of the live runtime, the audio pipeline apart from the
-- alignment, the lane filter of live questions, the service of event transitions, the loop of the
-- recovery over the sessions, the job services and documents of reports, retrieval apart from the
-- windows, identity, HTTP routes, and whatever only passes data to a database, to Redis, to files,
-- or to a speech or language model.
pub mod Base
pub mod Session
pub mod Jobs
pub mod Live
pub mod Insight
pub mod Questions
pub mod Alignment
pub mod Chunker
pub mod PostProcessing
pub mod Reporting
pub mod Tests
