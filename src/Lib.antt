-- ===== src/Lib.antt =====
-- go-stripenav: the bridge that reports Stripe invoices to NAV, the Hungarian tax authority.
--
-- A webhook handler persists one submission per Stripe event in a submission store. A worker claims
-- batches of submissions from the store under leases, and drives each through a state machine: it
-- submits the document to NAV through the NAV client, polls the transaction, and records the verdict.
-- The documents are mapped from Stripe's invoices.
--
-- Base: lists, byte strings, integers and arithmetic that the parts share. A Go string is the list of
--   its bytes, and the case and space functions are those on ASCII text; an int64
--   amount is an unbounded integer.
-- Submission (internal/submission/types.go, submission.go): statuses, the record and `transition`;
--   Submission.Machine has the state machine as a relation. A time is its nanoseconds after Go's
--   zero time, a natural number.
-- Store (internal/storeinmem/store.go): the map of rows is an association list (Store.Table) and
--   each method is one function, since the store's mutex makes it one step; the clock reading of a
--   call is an argument, and a context is `none` or the error that it is done with. `sort.Slice` is
--   insertion sort (Store.Sort), and the order in which Go ranges over a map is that of the list.
--   Store.Calls and Store.Exclusive compose calls of many workers to histories.
-- Nav, Schemas, Schemas.Api (nav/errors.go, nav/types.go, nav/schemas): records of what is sent to
--   NAV and of what NAV answers, without XML names.
-- Worker (worker.go): the configuration and its defaults; Worker.Verdict has overallStatus and
--   formatValidationMessages, Worker.Backoff the retry delay over float64 operations given by their
--   laws, Worker.Effects the store as an interface with laws and the in-memory store's instance,
--   Worker.Mutators the functions handed to UpdateStatus, Worker.World what a
--   lifecycle works on, Worker.Document xmlLooksLike, Worker.Actions the lifecycle. A lifecycle
--   runs on a list of rounds, one per turn of the loop: what the clock, the contexts, NAV and the
--   other workers do in that turn. The list is the fuel; a lifecycle that has used it up stops where
--   it stands, as a process that is killed, so that the theorems hold of every prefix of a run.
--   Worker.Renewal has claimAndProcess, and renewLease on a list of ticks; Worker.Run has Run's
--   loop on a list of turns, each with the signal that wakes it, and Tick; Worker.Waking has Run's
--   waiting between two turns, with Wakeup, on the channel of one place and the timer.
--   Worker.Acts, Steps, Lifecycle, Sending, Requests, Once, Parents, Progress, Acceptance,
--   Termination, Waking.Fits, Returns, Claims and Kept have the proofs.
-- Fleet (worker.go, with stripenav.go's Put): workers and handlers that share one in-process store, as
--   a relation whose steps are a Put, a ClaimBatch that starts lifecycles, a turn of a lifecycle's
--   loop, a renewal, a release, a lease's cancellation, the death of a process, and the passing of
--   time. Fleet.Rows, Leases, Renewals, Ledger, Turns and Filing have the proofs.
-- Invoicemap (internal/invoicemap/currency.go and tax.go): rationals as a sign, a size and a
--   denominator that need not be in lowest terms, amounts, rounding, tax numbers, the category of a
--   customer. Invoicemap.Options (internal/invoicemap/mapping.go, mapping/types.go): the options of a
--   mapping and their checks, the issue date, the supplier. Invoicemap.Customer: the customer.
--   Invoicemap.Lines: the sums of buildLines, per VAT rate and in total; the map by rate is a list
--   of entries. Invoicemap.Reconcile and Build: the printed amounts, the lines, the summary.
--   Invoicemap.Mapper: MapInvoice, as a do block over a value or a MappingError. A time is its Unix
--   seconds there. `(*big.Rat).SetString`, `%q` and the civil date of a time are parameters.
-- Navclient (internal/navclient; nav/config.go): the checks of NewClient, how a response is read,
--   which errors are retried, the exchange token (Token), hashes and signatures (Sign), envelopes
--   and requests (Envelope), and the calls (Requests), each of which returns the requests it sent and
--   the reply. Timestamps are in Timestamps; Signed has what a receiver can check of an envelope.
--   Base64, XML, the hashes, the cipher, HTTP, the UTC reading of a time and the rate limiter's waits
--   are parameters.
-- Bridge (stripenav.go): the webhook handler. Bridge.Documents maps an event (a do block over a value
--   or a permanent or transient failure), Bridge.Deliver answers a delivery and stores its submission,
--   Bridge.Startup builds the handler with its client and worker, shuts it down, and annuls by hand.
--   A `Delivery` is what one delivery meets: contexts, clock readings, and what others do to the store
--   after its Get and before its Put. The store is the in-process one. Drafts, Effect, Answers,
--   Reversals and Rates have the proofs.
-- Journey: a delivery, a claim and a lifecycle, one after the other.
-- Storno (credit_note.go): reversing documents, on the fields of Stripe's structures that the model reads.
-- Examples: the theorems at concrete inputs.
--
-- Not modelled: the rate limiter's spacing, HTTP, logging, Stripe's check of a
-- signature, the decoding of JSON and XML, and the end-to-end test helpers, which call other systems.
pub mod Base
pub mod Submission
pub mod Store
pub mod Nav
pub mod Worker
pub mod Fleet
pub mod Schemas
pub mod Invoicemap
pub mod Storno
pub mod Navclient
pub mod Bridge
pub mod Journey
pub mod Examples
