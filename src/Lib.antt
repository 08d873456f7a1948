-- ===== src/Lib.antt =====
-- A model of the desk_be server (TypeScript, NestJS, Prisma) and the theorems
-- about it.
--
-- The program is a customer-messaging backend: members of a workspace answer
-- contacts over several channels, and an organization pays for its workspaces.
-- Modelled are the parts whose own logic decides something.
--
-- Access (src/common/auth/route.guard.ts, src/common/constants/permissions.ts):
-- RouteGuard, which every request passes. `enforce` and `can_activate` are the
-- methods of those names; a request is a record of the headers and parameters
-- the guard reads, a thrown exception is a verdict, and what the guard writes
-- on the request is part of the result. The user of a
-- request is what the token guard before it has found. The guard reads the
-- user's role maps, which are plain objects, at a name that the client chooses;
-- Access/Found.antt says what it finds there.
--
-- Billing (src/modules/billing/billing.service.ts and
-- src/modules/billing/providers/razorpay.service.ts): the operations that
-- replace, cancel and refund Razorpay subscriptions, each a row of the table
-- SubscriptionOperation. Billing/World.antt is the state a handler works on:
-- the tables (lists of rows, as in prisma/schema.prisma), the clock, the calls
-- made to Razorpay so far and the detached clean-ups; a handler is a function
-- of the monad M of that state, whose result is a value or a thrown message.
-- Razorpay itself is a record of answers that may depend on every call made
-- before, so that no theorem supposes how it answers. Billing/Status.antt has
-- nextRazorpayOperationStatus and the delays, Billing/Upsert.antt the two
-- upserts, Billing/Provider.antt the wrapped provider calls and the refund,
-- Billing/Replacement.antt finalizeReplacedRazorpaySubscription and the
-- verification, Billing/Worker.antt processRazorpaySubscriptionOperation, the
-- lock and the loop of reconcileRazorpayBillingState. A second process that
-- writes between the read and the creation of an upsert is the `racing` row
-- of the World. Billing/Keeps.antt has the rules that carry a relation of
-- states through a handler, Billing/Present.antt the relation that no row of an
-- operation goes: an update of a row that is not there throws P2025.
--
-- Notifications (src/modules/notifications and src/workers/notification.worker.ts): what the
-- services store of one user in one workspace. Notifications/Presence.antt has `heartbeat` and
-- `getEffectiveStatus`, Notifications/Rules.antt the tests of the rule engine, and
-- Notifications/Service.antt `evaluate` with what it reads, the preferences and the history of
-- emails. The identifiers of crypto.randomUUID are arguments.
--
-- Lifecycle (src/modules/lifecycle): the stages of a workspace, LifecycleService as functions of
-- the table of stages (Lifecycle.antt) and of the flag that shows them
-- (Lifecycle/Visibility.antt, with the default stages). A bucket is the stages of one workspace
-- and one type. Identifiers that the database generates are arguments; an insert at one that is
-- there is refused, as the primary key does.
--
-- Outbound (src/modules/outbound/send-validator.ts): `validateContact` as a function into the
-- error that it throws (Outbound/Validator.antt), and the normaliser that gives a provider's error
-- the form of the interface (Outbound/Failure.antt is what it reads of the error,
-- Outbound/Normaliser.antt the tables of codes).
--
-- Knowledge (src/modules/ai-agents/knowledge/smart-chunker.util.ts and
-- src/modules/ai-agents/knowledge/text-sanitizer.util.ts): the cutting of documents into chunks.
-- Knowledge.antt has `forceSplit`, whose loop runs on fuel, one more than the text has characters,
-- which is enough because each turn starts at a later character; Knowledge/Sections.antt the sections
-- and paragraphs, Knowledge/Paragraphs.antt `splitSection`, Knowledge/Sanitizer.antt the sanitizer
-- and Knowledge/Chunks.antt `chunk`.
--
-- Workflows (src/modules/workflows, src/workers/workflow.worker.ts, src/queues/workflow.queue.ts):
-- the engine that runs published workflows. Workflows/World.antt is its state: the rows of runs
-- and steps, the keys of Redis and the queue. Workflows/Config.antt is a workflow's configuration,
-- Workflows/Conditions.antt and Workflows/Lookups.antt the conditions, Workflows/Runs.antt the
-- end of a run, Workflows/Handlers.antt and its children the handlers of steps,
-- Workflows/Engine.antt the start of a run and its steps, Workflows/Resume.antt what wakes a run,
-- Workflows/Triggers.antt the triggers, and Workflows/Machine.antt puts these together as a step
-- relation: the worker takes any job at any time, also twice, events are heard, keys run out and
-- workflows are edited; the deletion of a workflow, by which the database deletes its runs, is no
-- step. Workflows/Safety is what its steps keep, Workflows/Safety/Expected.antt what has to follow a
-- step, and Workflows/Recent.antt how long a marked answer is remembered. `completeRun` goes from a run to
-- its parent; the rounds are bounded by the runs that wait, so as many as there are runs are
-- enough. The handlers of messages, contacts and conversations, the ids of the database and what
-- JavaScript makes of texts as numbers and dates are parameters (`Outside`, `Numbers`). Of an
-- object in a field the engine reads the keys only; numbers in fields are naturals.
--
-- Delivery (src/modules/workflows/workflow-delivery-rulebook.ts): what is asked of a workflow
-- before it is published. Workflows/Delivery.antt has the channels, triggers and strategies,
-- Workflows/Delivery/Windows.antt the windows along the path to a step, and
-- Workflows/Delivery/Publish.antt the issues. The way up from a step runs on fuel, one more than
-- there are steps, which is enough because each turn visits another step
-- (Workflows/Delivery/Lineage.antt). Times are in seconds.
--
-- Assignment (the step assign_to of src/modules/workflows/workflow-engine.service.ts):
-- Workflows/Assignment.antt has `handleAssignTo`, `getEligibleAgents` and `pickAgent` on the tables
-- that they read and write; for the engine above it is one of the handlers that are parameters.
-- Workflows/Assignment/Eligible.antt describes who is eligible, Workflows/Assignment/Outcomes.antt
-- what a step may end with.
--
-- Sending (the step send_message and the sending of questions, of
-- src/modules/workflows/workflow-engine.service.ts): Workflows/Sending.antt finds the conversation
-- and the channel, Workflows/Sending/Messages.antt is `handleSendMessage`,
-- Workflows/Sending/Visits.antt when a visit of a step calls it, and
-- Workflows/Sending/Buttons.antt the answer to a template with buttons, on the tables that they read
-- and write; for the engine above they are parameters as well. Workflows/Sending/Sound.antt puts
-- them together with Delivery. What the rendering of variables makes of a text and what becomes of a
-- queued message are arguments.
--
-- Numbers are ℕ: times are milliseconds (seconds in Delivery), money is in the provider's smallest
-- unit, counters are never negative in the source. The other loops run along a list,
-- so that they need no fuel.
--
-- Not modelled: the database's own guarantees beyond unique keys, log output,
-- message texts that only a log shows, and the parts of the server that move
-- data between third-party interfaces (channel providers, language models,
-- storefronts, file formats, mail).
pub mod Common
pub mod Access
pub mod Billing
pub mod Notifications
pub mod Lifecycle
pub mod Outbound
pub mod Knowledge
pub mod Workflows
