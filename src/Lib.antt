-- ===== src/Lib.antt =====
-- Verification of the turn, tool and session machines, the wiki workflow, the reasoning filter, the
-- event decoder, the transactions of the vault and the shell output buffer of wiki-coding.
--
-- The program is a coding agent in Rust. A user's input becomes a turn: the session machine records
-- it and makes a request, the run machine drives the provider's answer as a stream of events, tool
-- calls that the answer asks for go through an invocation machine each, under a budget, and every
-- step is journalled so that the state can be rebuilt. What is worth keeping of a turn goes through
-- the workflow of a knowledge job: a gate, a generated patch, a guard over the patch, and a commit to
-- the wiki, which the vault writes in a transaction over files. The machines are pure: they take an
-- input, change their state and return effects, which the adapters (files, HTTP, processes, terminal)
-- carry out. Of the adapters, the decoder of server-sent events, the filter that takes reasoning out of
-- a streamed answer, the transactions of the vault and the buffer of shell output are modelled.
--
-- Files and the code they model:
--   Prelude                 shared names: Boolean tests, equality as an instance, lists over the native
--                           numbers, the result type, texts, and `BTreeMap<String, V>` as a sorted
--                           association list
--   Protocol.Event          crates/protocol/src/event.rs: events, identifiers, usage
--   Protocol.Tool           crates/protocol/src/tool.rs: calls, decisions, results, definitions and all
--                           their validations
--   Protocol.Runtime        crates/protocol/src/runtime.rs: errors, events, receipts, limits
--   Protocol.Request        crates/protocol/src/runtime.rs: TurnRequest::validate
--   Protocol.Session        crates/protocol/src/session.rs: session and journal records
--   Protocol.Json           the operations of serde_json values that the validations use, a parameter
--   Sequence                crates/core/src/sequence.rs: StreamSequence, replay_stream
--   Tool.Invocation         crates/core/src/tool.rs: InvocationMachine::apply and its helpers
--   Tool.Registry           crates/core/src/tool.rs: InvocationRegistry, and validate_unique_call_ids of
--                           crates/protocol/src/tool.rs
--   Tool.Budget             crates/core/src/tool.rs: AgentBudget, counters with their wrap-around
--   Runtime                 crates/core/src/runtime.rs: state, effects, begin, finish, tool fragments
--   Runtime.Machine         crates/core/src/runtime.rs: provider_event, continue_after_tools, apply
--   Session                 crates/core/src/session.rs: state, commands, effects, queries
--   Session.Journal         the cases of apply_record for sessions and turns, apply_terminal
--   Session.ToolRecords     the cases of apply_record for tool calls
--   Session.Records         the compaction, and apply_record as a whole
--   Session.Request         turn_request
--   Session.Machine         persist, the replay of one record, start_turn
--   Session.Commands        apply with every command, replay
--   Protocol.Vault          crates/protocol/src/vault.rs: identifiers, hashes, paths, manifests
--   Protocol.Knowledge      crates/protocol/src/knowledge.rs: jobs, pages, patches, receipts and all
--                           their validations
--   Knowledge               crates/core/src/knowledge.rs: DurabilityGate
--   Knowledge.Guard         the checks of KnowledgePatchValidator on sources, content and pages
--   Knowledge.Operations    KnowledgePatchValidator::validate and its loop over the operations
--   Knowledge.Types         inputs, effects and state of MainModelWikiWorkflow
--   Knowledge.Workflow      its start, events, receipts, requests, and the sum of usages
--   Knowledge.Machine       its handlers and apply
--   Vault.Files             crates/vault/src/path.rs: the files, replaced or created whole
--   Vault.Transaction       crates/vault/src/transaction.rs: roll_forward_with_fault,
--                           recover_wiki_transaction, transaction_is_committed and their helpers
--   Vault.Preparing         crates/vault/src/transaction.rs: PreparedWikiTransaction::prepare
--   Provider.Filter         crates/provider/src/reasoning_filter.rs: ChatReasoningFilter
--   Provider.Sse            crates/provider/src/sse.rs: SseDecoder, on bytes
--   Shell.Buffer            crates/tools/src/shell/buffer.rs: the shared budget of output bytes, the buffer
--                           of one shell, their operations on bytes
--   Samples, */Tests        concrete values, and each theorem at a concrete input
-- The other files hold the proofs, named for what they prove.
--
-- How the code is read. A method on `&mut self` takes the state and returns the new one. Where every
-- test stands before the first change, the result is `Result E (state, effects)`; RunMachine::apply,
-- SessionMachine::apply and MainModelWikiWorkflow::apply can change the state and then fail, so they
-- return the state beside the result. `BTreeMap` and `BTreeSet` are association lists in the order of
-- the keys. Clones, boxes and references are plain values; a write through a reference that a search
-- returned is an update of the first element that passes the same test. Texts are native strings,
-- lengths are in bytes. u16 and u64 counters keep their wrap-around or saturation; times and byte
-- counts are natural numbers. Loops are structural recursions, but for three that run on fuel: the one
-- that evicts old output has one for each unread byte and one more, which is enough since each round
-- but the last drops a byte, and the one of the reasoning filter has one for each character and one
-- more, which is enough since each round but the last takes a tag away; the loop of the event decoder
-- is counted in the same way. Decimal digits have one unit of fuel for each unit of the number and one
-- more. The filter works on characters where the code works on bytes: its tags are ASCII. The size of
-- a patch as JSON is an argument of the guard. The files of the vault are a map from paths to bytes,
-- written whole; a crash is a fault point of the code, after which the files stay as they are.
-- SHA-256, the JSON of manifests and receipts, and where a read, a write or the creation of a
-- directory fails are fields of a record that the transactions take; what fails changes no file. The
-- atomic counter of the output budget is read as one step per operation: the buffers of other threads
-- take part through the number of bytes that they hold.
--
-- Not modelled: serde encodings and Display; the compaction planner and trace of crates/core; the
-- terminal normalizer that runs before the output buffer, and the decoding of what is read from it;
-- the rest of provider and of the vault; retrieval, the rest of tools, tui, cli and windows-conpty,
-- which are adapters or have no part in these machines.
mod Prelude
pub mod Protocol
pub mod Sequence
pub mod Tool
pub mod Runtime
pub mod Session
pub mod Shell
pub mod Knowledge
pub mod Provider
pub mod Vault
mod Samples
