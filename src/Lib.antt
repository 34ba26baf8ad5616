-- ===== src/Lib.antt =====
-- Zhongduan: the terminal relay. A daemon on a Linux host owns a terminal and turns every change
-- of it into a numbered frame; a relay forwards the frames to browsers under a credit limit and
-- guards who may write; a browser keeps a replica of the terminal and sends input back.
--
-- Base holds what the modules share: Boolean tests and lists over the native numbers, a result
-- type for code that throws, the reads and writes of a byte array, maps as association lists with
-- the entry of a key written in place, and lists of ids.
--
-- Protocol models packages/protocol/src: Frame is data-frame.ts (encodeDataFrame is
-- encode_data_frame, and so on: each function keeps its name in snake case), Cursor is replica-
-- cursor.ts and Credit is delivery-credit.ts. Numbers and bigints of the source are natural
-- numbers, so tests for negative or fractional values have no counterpart; every upper bound is
-- kept. The loop that decodes a batch takes the length of its input as fuel, enough since a frame
-- takes 48 bytes at least.
--
-- Host.Journal models apps/host-daemon/src/journal.ts: a record of the class's private fields,
-- one function for each method, the clock an argument of each call.
--
-- Host.Session models apps/host-daemon/src/session.ts: the state of TerminalSession, the messages
-- of its queue and what each does. The terminal authority and the PTY are a record of functions,
-- where a throw is none, and a parameter of every definition. The chunks of output are cut on
-- fuel, the length of the output, which suffices because a chunk takes a byte at least. sent is
-- what was handed to the subscribers: Host.Session.Attach has subscribe and replayThrough, where
-- a subscriber that throws, or that calls back while its replay runs, is left out.
-- Host.Session.Calls has the calls around the queue (enqueue, the writers, submitInput, the exit
-- of the PTY and dispose) with the value that waitForExit resolves to; what dispose releases is
-- not part of the state.
--
-- Host.RecoveryQueue models apps/host-daemon/src/cloud/delivery-recovery-queue.ts: a key is the
-- pair of a stream and a generation, the clock an argument of the calls that read it, and the
-- predicate of takeRunnablePass (take_runnable_pass) a function of the request. The loop runs as
-- often as the order is long when it starts, as in the source.
--
-- Host.BarrierWaiter models delivery-barrier-waiter.ts beside it: a promise is the number of its
-- wait, and what settles goes to a list. The marker that is sent, in wait or later, is a call of
-- its own; its frame and the listener on the signal are left out, and so is a callback that calls
-- back.
--
-- Relay.Delivery models apps/terminal-cloud/src/worker/relay-delivery.ts. Relay.WriterAuthority
-- models writer-authority.ts beside it: a call that awaits is two functions, since other calls
-- run in between, and each reading of the clock is an argument. Relay.MessageQueue models
-- BoundedSerialQueue of relay-message-queue.ts: the chain of promises is the list of the
-- reservations that have not settled.
--
-- Browser.AckCoalescer models apps/terminal-cloud/src/browser/delivery-ack-coalescer.ts: the
-- answers of its callbacks are a record, a call returns its effects, and a schedule is a list of
-- calls and timers.
--
-- Browser.Intents and Browser.Ledger model apps/terminal-cloud/src/browser/input-intent-
-- ledger.ts: the records of an intent in its states, and IntentLedger with a function for each
-- method. Local ids are numbers; the payload of an intent and the frame that is sent for it are
-- parameters. The source's numbers can fall below 0 where the model's subtraction stops at it: in
-- every schedule that the invariant is about a counter is the sum of what is taken from it.
-- assertInvariants, which only checks the state, is not modelled.
--
-- Client.Deliveries and Client.Coordinator model packages/session-client/src/session-
-- coordinator.ts: the phases of a delivery, and SessionCoordinator with its calls and frames. The
-- replica engine is a record of functions, each with a flag that is false where it throws. A call
-- of startSnapshot that awaits is kept under its attempt until it is resumed; the abort signal is
-- left out, and a callback that calls back is a later call of the schedule.
--
-- Client.ZstdFrame models packages/session-client/src/zstd-frame.ts. The decompressor of fzstd is
-- a parameter, the list of chunks that it emits. The loop over the blocks takes one more than the
-- length of the input as fuel, enough since a block takes three bytes at least.
-- Client.ZstdFrame.Format describes the layout of a frame by its fields, apart from the code that
-- reads them.
--
-- The session, the relay and the replica meet in the data frames: Host.Session.Stream and
-- Relay.Delivery.Replica put what the first two send on before Protocol.Cursor.
--
-- Not modelled: the keyed queue, the browser's input dispatcher, the host's delivery scheduler
-- with its checkpoint cache, snapshots, sockets, HTTP, schemas, the user interface and the
-- scripts.
pub mod Base
pub mod Protocol
pub mod Host
pub mod Relay
pub mod Browser
pub mod Client
