-- ===== src/Lib.antt =====
-- A model of HunterFi, a set of canisters that deploy and run trading strategies on the Internet
-- Computer, and theorems about it.
--
-- The factory canister (src/factory/src) keeps users' balances, takes a fee for
-- a deployment request, creates and initialises a canister for the strategy, and gives the fee back
-- if a step fails.
--   Base: lists, dictionaries, equality, results and the monad of fallible state (`Action`), and
--     the saturating and wrapping arithmetic of the machine words.
--   Common: the types of src/strategy_common/src/types.rs (Common/Types), and the configurations
--     with `validate`, `get_strategy_type` and `get_exchange` (Common/Config); timer.rs and cycles.rs
--     of the same crate (Common/Timer, Common/Cycles).
--   Factory/Types: the types of state.rs, payment.rs and deployment_manager.rs, and the state of the
--     canister, `Factory`: the thread-local variables of state.rs.
--   Factory/State, Factory/Balances, Factory/Archive, Factory/Upgrade: the functions of state.rs.
--   Factory/Payment, Factory/Withdrawal: payment.rs. Factory/Deployment: deployment_manager.rs.
--   Factory/Timer, Factory/Retry, Factory/Schedule: timer.rs. Factory/Api: the entry points of api.rs.
--   Factory/System: the factory as a relation, one step for each part of a message, so a sequence of
--     steps is any interleaving of messages; Base/Keeps composes what actions keep.
--   Factory/Samples and Factory/Tests: concrete data, and the theorems at it.
--   Hedging: the self-hedging strategy, src/strategies/self_hedging/src/lib.rs. Hedging/State is
--     its stable cell with the flag of a running execution and the timer, Hedging/Lifecycle holds
--     `init_self_hedging`, `start`, `pause`, `stop` and the updates of the configuration,
--     Hedging/Split `split_amount`, Hedging/Execution `execute_once` up to the first trade and after
--     the last, and Hedging/Trades `execute_hedge_trades`, with the exchange as a parameter.
--     Hedging/Funds is the deposits and withdrawals of the strategy through the connector of the
--     crate exchange, and Hedging/Queries its queries.
--   Exchange: the crate src/exchange/src. Exchange/Types is types.rs and error.rs, Exchange/Utils
--     utils.rs, Exchange/Factory factory.rs with what KongSwap's connector does. The connector of
--     icpswap.rs is Exchange/Requests (what it asks of other canisters), Exchange/Calls (the pool of
--     a pair and a pool's methods), Exchange/Tokens (transfers, approvals and balances),
--     Exchange/Trades (quotes, trades, batches), Exchange/Deposits and Exchange/Pools.
--     Exchange/Trace and Exchange/Emits log the calls of an action: `Follows` is about every run,
--     `Emits` about those that succeed, and both compose along `>>=`.
-- The modules below a component hold its theorems: Factory/Payment/Ledger is about payments through
-- the ledger, Factory/Deployment/Service about a request and its execution, and so on.
--
-- A message of a canister runs without interruption up to an `await`. A function that awaits is
-- therefore several functions: `process_deposit` is `deposit_request` up to the call of the ledger
-- and `deposit_settle` from its reply on, and `execute_deployment` is `start_deployment`,
-- `resume_creating`, `resume_installing` and `resume_initializing`. What the functions read from
-- the system in one message (`caller`, `time`, `id`, the cycles) is the record `Call`. The ledger,
-- the management canister and the strategy's initialiser are parameters: their replies may be
-- anything. `start` and `execute_once` of the strategy are split in the same way, and the relation
-- `Step` of Hedging/Lifecycle/Invariant has one constructor for each part, so a sequence of steps is
-- any interleaving of messages. Whether a write to the stable cell succeeds is a parameter (`fits`).
-- The other canisters that the connector calls are a parameter too, a `Network`: what a call answers,
-- and the time, may depend on everything before. So are the arithmetic of `f64`, the bytes of a
-- principal and the order of the principals' texts (`Platform`). Candid's codec is a parameter too (`Codec`).
--
-- Integers are natural numbers with the saturation and the wrap-around of the source written out.
-- A `Principal` is only compared, so it is a number. A formatted string is its template and its
-- arguments. `execute_with_retry` has fuel; one run for each retry that is left is enough.
--
-- Not modelled: Candid, the stable structures and their memory layout, logging, when and
-- whether timers fire, and the factory's queries that only print; the liquidity operations, the trade
-- history and the failure handlers of the connectors (not implemented or never called); the examples
-- of the crate exchange; and, of strategy_common, `get_canister_status` and exchange.rs, whose types
-- and trait nothing uses.
pub mod Base
pub mod Common
pub mod Factory
pub mod Hedging
pub mod Exchange
