-- ===== src/Lib.antt =====
-- Verification of the control plane of the Mastermind Minecraft server manager.
--
-- The control plane (control-plane/src) is a server over a relational database. Agents on the hosts
-- poll it for jobs and report their results; players pay through Stripe for items that jobs then
-- grant in the game; triggers grant items for events; organizations run batches of jobs.
--
-- Files and the code they model:
--   Prelude            Boolean tests, lists, integers, text as UTF-16 code units with the parts of
--                      JavaScript's String in use, and tables as lists of rows (find_first and
--                      update_first stand for reading and writing a row by a key)
--   Json               the values that request bodies, webhook objects and JSON columns hold
--   Grants.Items       shop-grants.ts: parseGrantItemName, parseGrantQuantity, parseGrantItemList
--   Grants.Command     shop-grants.ts: grantPlayerTarget, buildGiveCommand
--   Grants.Status      shop-grants.ts: snapshotLineGrants, aggregateGrantStatus
--   Grants.Outcome     shop-grants.ts: classifyGrantOutput
--   Grants.Stored      shop-grants.ts: lineGrantItems, and what JSON columns hold
--   Grants.Delivery    jobs.service.ts: deliverShopGrantLines, queueShopGrantJob, finishShopGrant
--   Donations.Ledger   donations.logic.ts: creditCompletedSession, applyChargeRefund
--   Donations.Stripe   donations.logic.ts: parsePaidCheckoutSession, parseChargeRefund, parseLostDispute
--   Donations.Lines    donations.service.ts: buildDonationLines
--   Donations.Webhook  donations.service.ts: handleWebhook, creditPaidSession, refundPaymentIntent
--   Donations.Signature  donations.stripe.ts: verifyStripeSignature, constructStripeEvent(WithSecrets)
--   Donations.Checkout   donations.stripe.ts: createCheckoutSession
--   Donations.Shop       donations.shop.ts; its Manage: shop-items.service.ts; its Purchase:
--                      createCheckout of donations.service.ts
--   Jobs.Batches       batches.service.ts: createBatch, cancelBatch, recordJobRunStarted/Completed
--   Jobs.Runs          jobs.service.ts: markJobRunStarted, reportJobResult, reportJobProgress,
--                      failStaleRunningJobs
--   Jobs.Console       jobs.service.ts: the check of console commands in createJob
--   Jobs.Access        jobs.service.ts: the role checks in createJob
--   Jobs.Queue         jobs-queue.service.ts: addJob, getNextJobForHost; the poll of an agent
--   Auth.RateLimit     auth-rate-limit.service.ts: the buckets and the account lockout
--   Triggers.Catalog   catalog.ts: configurations and the crossing of thresholds
--   Triggers.Fires     triggers.service.ts: fireOnce, enqueueGrantItems, completeItemGrant, retries
--   Triggers.Backfill  triggers.service.ts: backfillTrigger
--   Triggers.Manage    triggers.service.ts: create, update
--   Pairing            pairing.service.ts: pair, verifyAgentKey, rotateAgentKey
--   Scheduler.Cron     cron-next.ts: parseSet, getNextCronRun, clampToExecutionWindow
--   Scheduler.Service  scheduler.service.ts: processScheduleFire and the worker's listener
--   Scheduler.Manage   scheduler.service.ts: hydrateSchedules, skipNextAutoRestart, createSchedule,
--                      updateSchedule
--   Players.Parse      player-roster.ts: parseMinecraftRoster
--   Players.Identity   player-identity.ts: reconcileNameFallback
--   Players.Roster     jobs.service.ts: applyPlayerRoster
--   Players.Protection jobs.service.ts: enforceConnectionTools
--
-- State is passed explicitly: an operation takes the tables and gives the tables back, a refusal is
-- a value of a result type, and what an operation sets off in another part is a list of effects in
-- the source's order, which are taken to return. Ids that the database makes and the current time are
-- arguments; times are milliseconds. Where a handler reads first and writes later, the two halves are
-- two operations, so that another request can run in between.
--
-- The runtime's `Number(text)`, `String(value)` and `JSON.parse` are a record of functions that the
-- definitions take, and so are HMAC, SHA-256, the JWT library, `toLowerCase` and the local calendar.
-- Every definition is total by structural recursion. Fuel stands in three places: `decimal` has one
-- more than the number it prints, which has no more digits than that; the steps of a cron field have
-- as many rounds as the field has values, and a step is at least one; the search for the next run
-- has the 366 * 24 * 60 rounds of the source's own loop, after which the source throws.
--
-- A timestamp in decimal is read as the number it prints, which the source's floating-point number is
-- up to 2^53; a price of at most two decimals is a whole number of cents.
--
-- Not modelled: the web front end, the agent and the bots; progress events, audit rows outside the shop and
-- log lines; BullMQ and Stripe themselves (their answers are arguments where they matter); pictures and
-- their files; accounts and mail; alerts, logs and monitoring; the text of messages to players.
pub mod Prelude
pub mod Json
pub mod Grants
pub mod Donations
pub mod Jobs
pub mod Auth
pub mod Triggers
pub mod Pairing
pub mod Scheduler
pub mod Players
