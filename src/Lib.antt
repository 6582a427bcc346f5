-- ===== src/Lib.antt =====
-- Verification of the iKarin Bank web client (frontend/).
--
-- The client shows accounts, sends transfers and manages cards; a Python back end keeps the
-- ledger. This library models the client's own logic: the reading and printing of money, the
-- validation of routing, account and card numbers, the reading of transactions and the sums
-- over them, the transfer forms, the card manager, the address book, the administration of
-- users, the profile, the session, the error logger, and the client of the back end's
-- interface.
--
-- Text is a JavaScript string as the list of its UTF-16 code units (Text.antt). Letters outside ASCII
-- keep their case there, which differs from `toLowerCase` and `toUpperCase` on such letters. Numbers of
-- the source are natural numbers or integers, with NaN as `none`: the model is exact as long as the
-- source's numbers are safe integers (below 2^53).
--
-- Files and what they model:
--   Money: frontend/lib/transactionUtils.ts (toCents, fromCents, formatCurrency, the status names).
--   Routing, Routing/Account: frontend/lib/routingUtils.ts, every function.
--   Aba, Badge, Card, Income, Merchant, Status, Yield: frontend/lib/neobank/utils.ts, types.ts and
--   cardGenerator.ts, each function under its own name in snake_case.
--   Timeline: frontend/lib/neobank/utils.ts (groupTransactionsByDate, filterTransactionsByTimeRange,
--   generateChartBuckets), on the host's `Date` as the record Calendar.
--   Stats: frontend/lib/dashboardUtils.ts.
--   Transfer: frontend/components/transfers/BetweenAccountsTab.tsx, its state, effect and handlers.
--   Vault: frontend/components/neobank/VaultTransferModal.tsx, its state, effect and handlers.
--   Fed: frontend/components/transfers/FedTransferTab.tsx, its state, effect and handlers, with lookups
--   that begin and end in any order.
--   Hub: frontend/components/transfers/SmartTransferHub.tsx, in the same way; its amounts are read by
--   parseFloat, Text/Float.
--   Schedule: frontend/components/transfers/ScheduledTransferTab.tsx; Schedule/NextRuns has
--   calculate_next_run_at of backend/date_utils.py, which finds the next run of what the form
--   sends.
--   Instant: frontend/components/transfers/InstantTransferTab.tsx.
--   Picker: frontend/components/ui/DatePicker.tsx, its state, handlers and grid.
--   Feed: frontend/hooks/useDashboard.ts, fetches that begin and end in any order.
--   Analytics: frontend/components/neobank/AnalyticsStudio.tsx, its metrics.
--   History: frontend/app/client/transactions/page.tsx, its filters and figures.
--   Contacts: frontend/app/client/contacts/page.tsx, deletions and changes split at their call.
--   Profile: frontend/app/client/profile/page.tsx, the backup email and the password.
--   Users: frontend/components/admin/UserManagement.tsx, its state, handlers, search and pages.
--   Wallet: frontend/components/neobank/CardSecurityHub.tsx, its state, effect and handlers.
--   Query: frontend/components/admin/QueryBuilder.tsx with its catalog, and handleQuery of
--   frontend/app/admin/page.tsx.
--   Monitor: the metrics, configuration and connection tests of frontend/app/admin/page.tsx.
--   Board: frontend/components/admin/BankingDashboard.tsx, its fetches, handlers and hourly bars.
--   Log: frontend/lib/errorLogger.ts; Log/Report has logError and the outputs that it feeds.
--   Session: frontend/lib/AuthContext.tsx, its state, handlers and timers, as steps in any order.
--   Client: frontend/lib/api/client.ts (refreshAuthToken, request).
--   Tests: runs on concrete inputs, and the theorems at concrete inputs.
-- An error message of the source is a constructor that carries the values which the message shows.
-- What the source takes from the outside is an argument: the answers of the network, the clock and the
-- random numbers.
--
-- The card numbers of Card and the amounts of Money are used by Wallet, Transfer, Vault and
-- Stats; Stats reads transactions as Income does, and Analytics uses Income, Merchant, Stats
-- and Timeline; the lookups of Fed and Hub use Routing and Aba; Session and Client share the
-- store of tokens; the other parts meet only through the pages that call them.
--
-- Fuel: the loop of formatAccountNumber has one unit more than the digits it splits, the loop
-- of request has the three attempts that the source allows, that of sendToRemote the attempts
-- that are configured, and print has one unit more than the number it prints.
--
-- A handler of a component runs on the state of the last rendering and to the end of its calls
-- of the network, with an outcome that it is given. What others can overtake is split at its
-- call: the logout of Session, the fetches of Feed, Users, History and Board, the lookups of
-- Fed and Hub, the deletions and changes of Contacts.
--
-- Not modelled: the rendering of the React components, the timers that clear a notification, and
-- the back end in Python but for the rule of the next run.
pub mod Prelude
pub mod Text
pub mod Money
pub mod Query
pub mod Routing
pub mod Aba
pub mod Card
pub mod Income
pub mod Badge
pub mod Board
pub mod Yield
pub mod Status
pub mod Merchant
pub mod Client
pub mod Analytics
pub mod Contacts
pub mod Fed
pub mod Feed
pub mod Picker
pub mod Hub
pub mod History
pub mod Instant
pub mod Log
pub mod Monitor
pub mod Profile
pub mod Schedule
pub mod Session
pub mod Stats
pub mod Transfer
pub mod Users
pub mod Vault
pub mod Wallet
pub mod Timeline
pub mod Tests
