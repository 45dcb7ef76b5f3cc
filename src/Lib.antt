-- ===== src/Lib.antt =====
-- Infinity Radius: the money of the platform and what it buys. The API service (apps/api) collects
-- payments for its tenants through Selcom, grants access for them, keeps a wallet with a ledger for
-- each tenant, and pays withdrawals out.
--
-- The parts, and the files that model them:
--
-- * Core, from apps/api/app/core: `Errors` has the domain errors (errors.py) and the result type of a
--   service call, `Enums` the vocabularies of enums.py and their terminal sets, `Money` the rounding
--   of money.py.
-- * Wallet, from apps/api/app/services/wallet.py and commercial_terms.py: `Wallet.Tables` has the rows
--   (apps/api/app/models/finance.py) and the tables `Books`; `Wallet.Operations` has one function for
--   each method of WalletService under the method's name. `Wallet.Calls` makes the methods calls of
--   one type and runs sequences of them. `Effects`, `Ledger`, `Reconciliation`, `Safety` and `Split`
--   carry the proofs.
-- * Payouts, from apps/api/app/services/payouts.py and two_factor.py, and from
--   apps/api/app/integrations/selcom_business: `Payouts.Tables` has the rows, the settings and the
--   environment of a call; `Provider` the reading of Selcom's codes and amounts; `TwoFactor` the
--   one-time code; `Transitions` the changes of status and `apply_provider_result`; `Submission` the
--   transfer and its reconciliation; `Service` the request; `Review` the other methods. `Moves` is the
--   abstract machine of a withdrawal, which `Refinement` and `Methods` relate to the methods. `System`
--   has the steps of the whole: methods on withdrawals, requests, and the other wallet calls, in any
--   order, those that raise included. `Guards`, `Funds`, `Backing`, `Requests`, `History`, `Once`,
--   `Answers`, `Codes`, `Limits`, `Gates`, `Liveness`, `Reachable`, `Transfers`, `Twice` and
--   `Committed` carry the proofs.
-- * Phones, from apps/api/app/core/phone.py: the normalisation of numbers, which both ways of paying
--   call. `Canonical` proves.
-- * Collections, from apps/api/app/services/selcom_payment_provider.py and collections.py:
--   `Collections.Tables` has the rows, the answers of the checkout client and the environment
--   `Checkout`; `Status` what an order status does (apply_order_status), with the finalizers of both
--   flows; `Provider` reconciliation, the dispatch to the flow that owns a row, the sweep and the
--   webhook; `Initiation` the order and its prompt. `Changes`, `Credits`, `Rows` and `Effects` say what
--   any of these may do to a row and to the ledger; `Dispatch` and `Verified` prove.
-- * Billing, from apps/api/app/services/subscriptions.py and vouchers.py and the rows of
--   apps/api/app/models/network.py: `Billing.Tables`, `Subscriptions` and `Vouchers`; `Counting`,
--   `Generation` and `Redemption` prove.
-- * Customers, from apps/api/app/services/customers.py and apps/api/app/repositories/customers.py: the
--   creation of customers by staff and by their first payment. `Directory` and `Returning` prove.
-- * Settlement, from apps/api/app/services/settlement_config.py: the versions of a tenant's settlement
--   mode. `Versions` proves, and `Custody` joins them to the requests of withdrawals.
-- * Portal, from apps/api/app/services/captive_portal.py, captive_session.py, captive_activation.py and
--   captive_rate_limit.py: `Portal.Tables` joins the payments, the subscriptions, the sessions and
--   what RADIUS was told; `Sessions`, `RateLimit`, `Payment`, `Activation` and `PublicView` have the
--   operations. `System` has the steps of the payment side as a whole; `Attempts`, `Grants`, `Access`,
--   `Duplicates`, `Screen` and `Quota` prove.
-- * Agent, from apps/network-agent/app/core: `Nonces` has the nonce cache (nonce_cache.py) and
--   `verify_agent_signature` (security.py), with the keyed hash and the digest as parameters, and one
--   clock in seconds; `Replay` proves. `Allowlist` has the middleware of ip_allowlist.py, over the
--   `ipaddress` library as a parameter, with its proofs. A timestamp below zero is read as no
--   timestamp: either is refused.
--
-- How state and calls correspond. A service method is a function from its arguments and the state to
-- a result with the new state. A method of PayoutService works on a `Work`: the withdrawal that
-- get_by_id_for_update has locked, with the tables of the transaction; `on_row` finds the row, runs
-- the method and saves the row. An error carries no state, since the session of a request that raises
-- is not committed; a transfer that was posted by then is not taken back, and `Contact` says which one
-- that is, so that the steps of `System` keep it. Row locks make the requests on one wallet or one withdrawal sequential, so any
-- interleaving is a sequence of steps.
--
-- What comes from outside is a parameter, in the record `Env`: the clock (one time for each call, in
-- seconds), the settings, the keyed hash, the drawn code, the profile, the mail service's success, the
-- destination book, and Selcom's answers, one of which is a body that does not validate. A drawn id (uuid4) is taken to be unused, which the step of a
-- request says.
--
-- Choices. Amounts are integers of cents, and rates are hundredths of a percent, as the columns store
-- them; amounts below a cent, and the overflow of a column, are not modelled. Texts are lists of code
-- points, with `strip` and `upper` for ASCII. The ledger and the logs are newest first. Texts that are
-- stored for people to read (descriptions, reasons, notes) are left out, as are the returned copies of
-- rows. The one loop that is not structural, the drawing of voucher codes, runs on fuel; each round
-- counts an attempt and the loop stops at quantity * 5 + 20 of them, so any more fuel is enough.
--
-- A payment that a request has locked is a `Payment`, written back by `save_payment`. An exception that
-- is no domain error (a flow mismatch, a client without configuration, an amount with cents) is the
-- error `unhandled`. A signed token stands for the id that it resolves to. The decision of the rate
-- limiter is an argument of a purchase, since its counters live in Redis and no rollback touches them;
-- `RateLimit` models them by themselves. What RADIUS was told is a list that only grows.
--
-- Not modelled: the RouterOS client and the routes of the network agent, the lists and the changes
-- of the destination book of payouts.py, its stale alerts and its lookup preview, a process that
-- dies or a commit that fails after a transfer was posted, pagination, request parsing, token
-- signatures, migrations, tasks, and the web application.
pub mod Prelude
pub mod Core
pub mod Wallet
pub mod Payouts
pub mod Agent
pub mod Phones
pub mod Collections
pub mod Billing
pub mod Customers
pub mod Portal
pub mod Settlement
