-- ===== src/Lib.antt =====
-- fxjournal: a trading journal with a premium trial, synchronised with MetaTrader 5 (MT5) accounts.
--
-- The web application (Flask) keeps users, trade accounts, MT5 accounts and trades in a database.
-- Workers (Celery) on Windows VMs drive MT5 terminals: one worker sets a terminal up, another reads
-- its deals and makes trades of them. Tasks are routed to a VM by the name of a queue; the workers
-- share locks in Redis. What a user may do is decided by the entitlements.
--
-- Which file models which code:
--
-- Models          models.py: the columns of User and MT5Account that the rest reads and writes.
-- Access          auth_account.py: which user counts as an administrator.
-- Accounts        auth_account.py: the rows of users and signup codes. Accounts/SignIn signs in by
--                 password and through Google, Accounts/SignUp registers and verifies an address,
--                 Accounts/Tokens and Accounts/Reset are the links in mails, Accounts/Review is what
--                 a root administrator does. Accounts/History puts these requests one after another.
--                 Hashes of passwords and signed tokens are interfaces (Passwords, Signer) of the
--                 libraries werkzeug and itsdangerous, whose laws a concrete signer satisfies.
-- Entitlements    helpers/entitlements.py: access reasons, the start and the state of the trial, the
--                 gates of MT5 sync, of the follow-up chat and of the replay. The database, the clock
--                 and the schema are one record, Env; what a call writes is part of its result.
--                 Entitlements/Extend: the admin's extension of a trial and its panel.
-- Dispatch        helpers/mt5_dispatch.py: queue names, and Dispatch/Setup the VMs of a setup and
--                 their failover, Dispatch/Guard the dispatchers and the guard by which a worker sends
--                 on a task of another VM. A published task is a record; environment variables are
--                 arguments.
-- Cache           celery_workers/cache.py: locks, their release script, the waiting for the lock of
--                 the MT5 runtime, the status of the weekly review. Redis is an interface (the record
--                 Redis) whose laws (Cache/Server) are its documented behaviour, and which a store in
--                 memory satisfies. A command may be answered, may not reach the server, or may run
--                 with its answer lost.
-- Lifecycle       helpers/core.py and models.py: archiving, reactivation and cleanup of an MT5
--                 account and the VM chosen for each; Lifecycle/Beat is
--                 celery_workers/mt5_sync_tasks.py, sync_all_active_mt5_accounts. Lifecycle/Terminal
--                 is celery_workers/mt5_setup_tasks.py, setup_mt5_terminal: its checks, the guard, the
--                 end of a successful run and the handlers of its errors, with Lifecycle/Errors the
--                 errors that failover is for. What Windows and the terminal do is a parameter, and
--                 the row does not change while the task runs.
-- Deals           celery_workers/mt5_sync_tasks.py: aggregate_deals_to_trades.
-- Imports         helpers/core.py: build_normalized_trade_insert_batch, and trading.py: the check of a
--                 trade's levels and their reach. What trading.py reads from tables of symbols is the
--                 record Catalogue.
-- Analytics       trading.py: streaks and the timeframe of a chart.
-- Interpretation  helpers/trade_interpretation.py: the bundle and the flags of a trade and their
--                 history.
-- RunningPnl      helpers/running_pnl.py and helpers/trade_state.py: the events of an account, their
--                 running totals and the summary.
-- Weekly          helpers/weekly_ai_queue.py: queueing a weekly review, over the interface of Redis.
-- Capacity        helpers/core.py, routes/trade_accounts.py, auth_account.py: slots for MT5 setups.
-- Prelude         shared tests, lists, integers and texts, with their lemmas.
--
-- Functions keep the names of the source, without a leading underscore; a loop is a function on the
-- list it runs over, and a branch that needs one has a helper above it.
--
-- How values are represented: a text is a list of ASCII codes, so that casefold is lower. A datetime
-- is a number of microseconds since year 1, naive or aware; the cache counts milliseconds. Money is in
-- whole cents, volumes in billionths of a lot and prices in units of their last digit, where the
-- source has floats: rounding of floats is not modelled, and a weighted average is kept as a fraction.
-- An error that the source raises or returns is a value.
--
-- Bounds and fuel: a chain of setups that fail over runs along the list of their errors, and as many
-- errors as there are configured VMs reach its end, since each step moves on by one VM. The wait for a
-- lock has one step of fuel for each millisecond of waiting and one more, since each sleep lasts fifty
-- milliseconds at least. All other loops run over lists.
--
-- Not modelled: the pages, forms and mails of the routes, prompts and calls of the AI service,
-- parsing of spreadsheets, the calls of the MT5 terminal and of Windows, migrations, logging. Failures of the database are an
-- argument where the code handles them. In the waiting for a lock a claim of it and the look at the clock
-- after it are one step. A setup of a terminal leaves out the terminal's paths in the row and the
-- cleanup of its files that it may queue. Deleting a user forgets it as the
-- approver of others; its trades and accounts, which are deleted too, are not among the rows of users.
pub mod Prelude
pub mod Models
pub mod Access
pub mod Entitlements
pub mod Dispatch
pub mod Cache
pub mod Lifecycle
pub mod Deals
pub mod Interpretation
pub mod RunningPnl
pub mod Accounts
pub mod Imports
pub mod Analytics
pub mod Weekly
pub mod Capacity
