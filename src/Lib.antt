-- ===== src/Lib.antt =====
-- Kalshi-AutoTrader v2: the governance, risk, execution, council and validation core of a trading bot
-- for event contracts and perpetuals.
--
-- The program. A strategy proposes a candidate. The council (src/kalshi_bot/agents) reviews it: its
-- coordinator calls the specialists within a budget, a deterministic policy decides whether a
-- master may be asked, and the boundary lets the recommendation through to a paper adapter behind two
-- groups of deterministic checks; a profile's stage is a ledger of promotions.
-- The execution layer (src/kalshi_bot/execution) admits an asset, sizes and sends orders, and tracks
-- them over restarts; a perpetual position gets a bracket on the exchange in the same operation as
-- its entry. The risk layer (src/kalshi_bot/risk) gates every entry: an emergency control over three
-- guards and the dashboard's panel, a throttle, a policy of budgets, a leverage governor and a
-- sizing function. Above all of them stand two append-only ledgers (src/kalshi_bot/risk/governance.py):
-- one emergency switch for the process, and one lifecycle state for each asset, domain and candidate.
-- Two simulated brokers stand behind one protocol: one replays bars, one trades on live quotes and
-- writes its trades to a table, from which it restarts. A strategy's past performance is measured on
-- walk-forward folds and goes through a promotion gate (src/kalshi_bot/backtest).
--
-- The files, each with the code that it models:
--   Governance/Halts       `GlobalEmergencyControl`, `HaltStatus`, `HealthCheck` of
--                          src/kalshi_bot/risk/governance.py, `EmergencyHaltRecord` of
--                          src/kalshi_bot/storage/models.py; Spec is the switch, Rows the ledger,
--                          Episodes one halt from its start to its end
--   Governance/Lifecycle   `LifecycleGovernor`, `PromotionEvidence` of the same file,
--                          src/kalshi_bot/config/lifecycle.py, `LifecycleTransitionRecord`; Ladder and
--                          Demotion are one call, Trace and Readback sequences of calls
--   Risk/DailyLoss, Risk/LossStreak   the two guards of src/kalshi_bot/risk/daily_loss_guard.py
--   Risk/Drawdown          src/kalshi_bot/risk/drawdown_guard.py; Peaks and WindowPeak are the deque,
--                          Halting and Pausing the state machine
--   Risk/Throttle          src/kalshi_bot/risk/entry_throttle.py
--   Risk/Emergency, Risk/Panel   src/kalshi_bot/risk/emergency_control.py and
--                          src/kalshi_bot/web/control_state.py
--   Risk/Policy, Risk/Leverage, Risk/Sizing   src/kalshi_bot/risk/paper_policy.py,
--                          leverage_governor.py and fixed_risk.py
--   Risk/Funding           src/kalshi_bot/risk/funding_awareness.py
--   Execution/OrderFile    the orders of src/kalshi_bot/execution/order_tracker.py and the file's dictionaries,
--                          written by `save` and read by `load`
--   Execution/Orders       the rest of that file; Reconcile is its `reconcile`, Table the dictionary, Validity
--                          one order, Preserved and Reconciled one call, Effects sequences of calls,
--                          Undisturbed and Durable what a restart gives back
--   Execution/Bracket      src/kalshi_bot/risk/exit_triggers.py
--   Execution/PerpAdmission   src/kalshi_bot/execution/perp_admission.py
--   Execution/PaperGuard   src/kalshi_bot/execution/paper_guard.py
--   Execution/Broker       src/kalshi_bot/execution/broker_protocol.py, what the two brokers share
--   Execution/BacktestBroker   src/kalshi_bot/execution/backtest_broker.py; Accounting is one call,
--                          Conservation sequences of calls
--   Execution/PaperBroker  src/kalshi_bot/execution/paper_broker.py and `SimulatedTrade` of
--                          src/kalshi_bot/storage/models.py; Table and Settled are what a restart
--                          reads, Restart sequences of calls
--   Signals/Fees           src/kalshi_bot/signals/fees.py
--   Backtest/WalkForward   src/kalshi_bot/backtest/walkforward.py; Loop is its while loop, Windows the folds
--   Backtest/PromotionGate src/kalshi_bot/backtest/promotion_gate.py and the records that it reads of
--                          src/kalshi_bot/backtest/report.py
--   Backtest/PerpLedger    src/kalshi_bot/backtest/perp_ledger.py, its trades, metrics and gate
--   Agents/Boundary        src/kalshi_bot/agents/admission.py
--   Agents/CouncilLifecycle   src/kalshi_bot/agents/lifecycle.py; Promotions is the ledger, Climb the
--                          way up
--   Agents/Contracts, Agents/Validation   src/kalshi_bot/agents/contracts.py and profiles.py, and
--                          src/kalshi_bot/agents/validation.py
--   Agents/Profiles        the routing of a key to a profile, in src/kalshi_bot/agents/profiles.py
--   Agents/Policy          `calculate_policy` of src/kalshi_bot/agents/coordinator.py
--   Agents/Coordinator     the rest of that file: Budget, Calls (one role's call), Rounds (the specialists),
--                          Decision (the master's answer) and Run; Grounded, Take and Sound are what a
--                          result rests on
--
-- How the code is read. A method is a function from the object's state to its answer and its next
-- state; a call that raises gives `raised` with its state. A SQL table is the list of its rows,
-- newest first. A dictionary is an association list in insertion order. `uuid4` and the clock are
-- arguments; a clock that one call of the program reads more than once is read once where the
-- difference cannot be seen. Money and prices are integers of one smallest unit, percentages and
-- leverages are in millionths, and times are whole seconds from zero, so that the program's
-- floating-point comparisons are exact here; a quotient is a fraction that is multiplied out. An
-- amount that the program takes to be not negative is a natural number. A JSON column is its text.
-- An f-string that nothing reads back is a constructor with its arguments. What is not under
-- src/kalshi_bot is a parameter: the margin client, whether the file system lets a save through, the council, the adapter, `str.upper`, the file
-- system's path operations.
-- The brokers count money in cents and contracts in whole units, as the exchange does. The clients of
-- the council are a function from requests to answers: a time-out or a failure is an answer. A model's
-- answer is read by a parameter, since its JSON reader is not under src/kalshi_bot.
-- One loop runs on fuel, that of `rolling_folds`; its fuel is the end of the range, which is
-- enough since each turn moves on by at least a second. Every other loop runs over a list.
--
-- Not modelled: the market data feeds, the discovery queries, the strategies and signals, the
-- backtest engine's loop and the simulation of a perpetual trade, the orchestrator and the exchange adapters,
-- the default council profiles, the prompts and the transports of the council, the language models,
-- the settings, the SQL sessions and the dashboard's routes; logging, hashes and checkpoints everywhere;
-- the rounding of floating-point numbers, and NaN; a callback of the boundary's audit that raises; the order
-- in which the council's concurrent calls run; and two processes that write to one ledger within one
-- transaction.
pub mod Prelude
pub mod Governance
pub mod Risk
pub mod Execution
pub mod Signals
pub mod Backtest
pub mod Agents
