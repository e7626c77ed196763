-- ===== src/Lib.antt =====
-- Price Scout watches the price of a product on a web page. Its worker takes jobs from a queue,
-- compiles a monitor's request into a plan for the page, checks a price by that plan without a
-- model, and repairs a plan that the page has outgrown. Its console shows monitors, executions and
-- revisions to an operator, who confirms plans there. A small store with a control interface
-- serves the pages that the worker is tried on. The library models the TypeScript of these three:
-- worker/src, web/src and fixture/src.
--
-- A delivery (`processDelivery`, worker/src/queue.ts) asks the control plane for the execution,
-- runs it by `executeJob` (worker/src/handler.ts) and posts the result. A job checks its URL
-- (worker/src/safety.ts), opens a browser session (worker/src/browser.ts), compiles, replays or
-- heals a plan (worker/src/compiler.ts, worker/src/handler.ts), reads an observation from the page
-- (worker/src/extract.ts), validates it (worker/src/validation.ts) and leaves evidence
-- (worker/src/artifacts.ts).
--
-- The console (web/src) reads the control plane by web/src/api/client.ts, which brings answers into
-- the shape of web/src/types.ts; it keeps a stream of events open (web/src/live-events.tsx), whose
-- events invalidate keys of a cache of answers (web/src/api/queries.ts), and its pages compute what
-- they show from the data and submit two forms. The worker's result and the console's reading of
-- it meet in Web/Client/Diagnostics, the store's page and the worker's reading of it in
-- Fixture/Page.
--
-- Base: shared names; Text (UTF-16 code units), Unicode and Numbers (case tables, normalisation
--   and doubles, as parameters with the laws used of them), Decimal (printed numbers and their
--   values), Sorting (the stable sort of the language), Effects (errors and results).
-- Regex: the regular expressions of the language as a backtracking matcher, with the meaning that
--   it decides, the lemmas on searching for whole words, and in Avoids a test for expressions that
--   find nothing in texts of certain units.
-- Contracts: the data types of worker/src/contracts.ts. Records of texts are lists of entries.
-- Outside: what this repository does not implement. Pure services of the platform are fields of
--   `Platform`; calls of the browser driver, the model, the file system and name resolution are
--   the data type `Call`, answered by an abstract world that may also fail. Outside/Act is
--   asynchronous code over that world; Keeps, Makes, Emits, Takes and Returns are judgements on such
--   code, with a rule per construct: a view of the state that it keeps, the calls that it makes
--   without or with changes to the flags of a session, the states that it takes to others, the
--   values that it returns.
-- Safety: worker/src/safety.ts. Action is `assertSafeAction`, Address `isPrivateAddress`, Url
--   `validateTargetUrl` and `assertSameOrigin`, Replay `assertSafeActionTarget` and
--   `replaySafeAction`.
-- Validation: worker/src/validation.ts. Price and Numeral are `parsePrice`, with what it finds in
--   printed prices in Price/Scanned and Price/Printed; Title `fingerprint` and
--   `titleSimilarity`, Identity `validateObservation`.
-- Extract: worker/src/extract.ts. Policy: worker/src/extractorPolicy.ts. Config:
--   worker/src/config.ts. Artifacts: worker/src/artifacts.ts. Browser: worker/src/browser.ts, and in
--   Lifecycle its `init` and `close` as steps of a relation that interleaves them.
-- Compiler: worker/src/compiler.ts. Verify holds the replay and validation that both compilers
--   end with, Fixture `compileFixture`, Live `compileLive`.
-- Handler: worker/src/handler.ts. Failure is the classification of errors, Replay `warmCheck`,
--   `repairLive` and `validateRepairFresh`, Decisions the pure part of `executeJob`; Calls,
--   Outward, Closing, Report and Agreement hold proofs.
-- Queue: worker/src/queue.ts. Backoff; Delivery is `processDelivery` with the ways a delivery can
--   go, Consumer `ensureDurableConsumer`, and Pull the loop of `WorkerQueue.run`.
-- Api: worker/src/api.ts, the body and the request of a result, and in Input what is read of an
--   answer.
-- Entry: the signals that worker/src/index.ts answers.
-- Fixture: fixture/src/server.ts, its state, routes, control interface and bodies, and in Page the
--   description of the product that its page embeds for machines.
-- Web: web/src. Types is types.ts; Client is api/client.ts, with Request for `request`, Normalize
--   and Diagnostics for the normalising of monitors and executions, Operations for the object
--   `api`, and Review for `getReview`; Queries is api/queries.ts; Events is live-events.tsx as a
--   relation over the calls of its handlers; Format is lib/format.ts; Pages has a module for each
--   page that computes something, and Components for StatusBadge.tsx and PriceChart.tsx.
-- Tests: a shop page, a control plane, a store and a console, and the theorems applied to them.
--
-- Bounds: repetition in a regular expression runs one round per unit of text left, since a round
-- that consumes nothing is not tried (Regex/Meaning proves that no match is lost); an address
-- inside an IPv6 address is looked at once more, and is none itself; the fuel of `redeliver` is
-- one more than what is left of an outage, and is shown to be enough.
--
-- Numbers that the console and the store read are natural numbers, and dates are counted in
-- milliseconds from the earliest date that the language has. The fetch, the cache of answers, the
-- locale, `JSON.parse` and the reading of an answer at its declared type are parameters.
--
-- Not modelled: the schemas that check inputs and settings, except that of a queue job; log
-- lines; launch options of the browser but those on its model and on self-healing; the fixed
-- text of prompts. The listener that closes the browser on abort runs beside the calls, so its
-- effect on them is part of the world's answers, and so is the timer that aborts a job.
-- `Promise.all` of two reads is one after the other. Entries of a record have distinct keys that
-- are no names of `Object.prototype`. The elements that the console draws and its routing, the
-- places of the points in a chart, and the text and the script of the store's pages are not
-- modelled.
pub mod Base
pub mod Regex
pub mod Contracts
pub mod Outside
pub mod Config
pub mod Browser
pub mod Safety
pub mod Validation
pub mod Policy
pub mod Extract
pub mod Queue
pub mod Artifacts
pub mod Compiler
pub mod Handler
pub mod Api
pub mod Entry
pub mod Fixture
pub mod Web
pub mod Tests
