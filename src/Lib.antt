-- ===== src/Lib.antt =====
-- A verification library for the personal WeChat bot (app/personal_wechat_bot).
--
-- The program reads messages that a hook writes down, routes them, has a model draft replies, and
-- sends the replies through guards, either by itself or after a person has confirmed them. Several
-- processes share its state in SQLite files. This library models the parts that decide whether a
-- message is answered, whether a reply may be sent, how often it can be sent, and which task runs next.
--
-- Parts and files:
--   * ConfirmQueue (reply_gate/confirm_queue.py): the queue of replies that wait for a person. Item
--     holds the records and the status graph, Store the table and the loops that edit one record,
--     Claims, Review, Bridge and Retry the operations, under the names of the methods of
--     `ConfirmQueue`. Moves gives the operations as a step relation on records; Safety and AtMostOnce are
--     about histories of calls by any processes, Contended about a second claim, Holder about reviews and
--     send results, Resent about a retry over the bridge.
--   * SendExecutor (reply_gate/send_executor.py): Guards is `_can_send`, Execute the sends of
--     `_execute` and `_send_reply_files`, Combine the results of several parts. The driver and what is
--     behind it are parameters.
--   * ReplyGate (reply_gate/gate.py): `handle` in its three modes, over the queue and the executor.
--   * Router (router/): Deduper and Cooldown with their tables, and `Router.decide` in Decide. The
--     router uses the channel store and the admission of conversation/ through the record `Channels`.
--     Turns is how processor/message_processor.py checks the cooldown before it answers a message of a
--     group and marks it after, one message of a conversation at a time, as Batches hands them out.
--   * Tasks (tasks/manager.py): Record holds the tests on a task, Scores the order of dispatch, Merge
--     `_merge_task`, Dispatch the loop of `claim_next`, Preview `_dispatch_preview`, Store
--     `create`, `update`, `transition` and `finish_external`.
--   * Admission (conversation/channel_admission.py): Explicit and Titles hold the tests on payloads and
--     names, Rules the verdicts, Unmarked what a payload without a stranger is, Stranger the router over
--     them. Json has the payloads.
--   * Batches (runtime/conversation_scheduler.py): Defer leaves the answer to older live messages to
--     the latest, Group sorts a batch by conversation, Run is the loop of `process_batch` over the threads.
--   * Workers (agent/worker_queue.py): Queue is the loop of `run_until_idle` over worker processes.
--   * Bus (wechat_driver/jsonl_bus.py): File appends records to the bytes of a file, Text reads its lines,
--     Index is the sidecar index, Once the append that keeps keys apart.
--   * Keys (llm/key_pool.py): Parse reads a line of the key file, Pool holds the refs of a provider, the
--     removal of a key and the assignment to conversations.
--   * Resources (runtime/): Recommend is resource_governor.py, Split resource_scheduler.py; of
--     resource_gate.py, Slots has the slot files and their leases, and Gate the order in which callers take
--     them, as `_llm_slot` of llm/openai_client.py calls it.
--   * Domain (domain/models.py): the data that these parts hand to each other.
--   * Prelude: lists, texts and dicts over native numbers, with their lemmas.
--
-- How the code is modelled: where an operation holds a lock or a write transaction of SQLite it is
-- one step from state to state, and an interleaving of processes is a list of such steps, each with
-- the clock, the process id and the process table it sees. Threads that run side by side (Batches,
-- the gate of Resources) are a step relation. What worker processes do, where a process stops in a
-- write, and when the answer to a message begins and ends, is input: a list of rounds or of events.
-- Exceptions are values of `Outcome`, of `Answer`, or an `Option`
-- where there is one kind. Dicts are association lists, sets lists without repetitions, files lists of
-- bytes. Times are microseconds, a processor's load hundredths of a percent, and scores are counted in
-- units of 1/60000000 and shifted so that they are not negative. Loops run over lists by structural
-- recursion; only the loop of the workers waits for others, and it is given rounds until the deadline
-- has passed, which the clock brings about.
--
-- Parameters: the drivers, the channel store, `str` and its methods (`Python`), JSON and UTF-8
-- (`Codec`), SHA-256, the product of floats that splits a budget, and the handler and the reader of
-- messages of the conversation scheduler.
--
-- Not modelled: rows of JSON that do not parse; the repairs that run before a claim (a function
-- parameter); exceptions of `send_message`; the cut of the preview at `limit`; the handshake with a
-- worker that starts and exceptions that leave the loop of the workers; the measuring of the machine;
-- the addition of an API key and the settings kept for each; and the remaining parts of the program:
-- the ledger, the bridge, the models and the tools, the configuration, and the control interface,
-- which are input and output or stand on the parts above.
mod Prelude
pub mod Json
pub mod Domain
pub mod ConfirmQueue
pub mod Router
pub mod SendExecutor
pub mod Admission
pub mod ReplyGate
pub mod Tasks
pub mod Batches
pub mod Bus
pub mod Keys
pub mod Resources
pub mod Workers
