-- ===== src/Lib.antt =====
-- Verification of the core of py000-nautilus: the custody of source fills and hedges of the Taker and
-- Maker strategies, with the pure rules that they apply. The strategies buy or sell gold on a
-- source venue and hedge each fill in whole ounces on MT5; a store keeps what was filled and what
-- is owed, through restarts and failed writes.
--
-- The parts, and the code that each file is about:
--   Base         lists, signed amounts, dictionaries, fallible actions: what Python gives
--   Models       src/py000_nautilus/models.py: legs, intents, and the checks of their constructors
--                (Models/Checks); economics.round_hedge_ounces (Models/Rounding)
--   Durability   src/py000_nautilus/durability.py and store._persist_payload
--   Hedge        src/py000_nautilus/hedge.py: plan_hedge_delta and validate_hedge_leg; Hedge/Order is
--                the order of the tickets, Hedge/Queue the tickets in that order, Hedge/Total and
--                Hedge/Closing what a plan closes and adds up to
--   Coordinator  src/py000_nautilus/hedge.py: HedgeCoordinator over the store; Coordinator/Legs,
--                Coordinator/Blocked and Coordinator/Handed are how next_hedge_leg ends, and
--                Coordinator/Keys is how a fill key is taken apart
--   Store        src/py000_nautilus/store.py: JsonStateStore. Store/Source holds the operations on source
--                orders, Store/Fills reserve_source_fill, Store/Lookup, Store/HedgeFill and
--                Store/Hedges the operations on intents; Store/Custody, Store/Exposure and
--                Store/Keyed are the lemmas that they share; Store/Sound is what holds in every
--                history of the calls (Store/Sound/History)
--   MakerStore   src/py000_nautilus/maker_store.py: MakerStateStore, which owns two Maker views and
--                the Taker's: routes, allocations and balances; MakerStore/Validate is _validate,
--                MakerStore/Publish _persist, the freezes and their release, MakerStore/Fills the
--                direction store's reserve_source_fill, MakerStore/Dispatch whose hedge is next;
--                the other modules below it are their properties: MakerStore/Booked is what a fill
--                writes, MakerStore/Evidence what a release asks, MakerStore/Due what is due
--   Maker        src/py000_nautilus/maker_economics.py and shared_admission._within_bounds: the carry
--                budget (Maker/Bounds), the account limits (Maker/Limits), the passive price
--                (Maker/Price)
--   Accounts     the accounts of models.py and config.RiskConfig; how an account is chosen
--                (economics.select_source_account, maker_economics._select_source, _select_hedge)
--   Taker        src/py000_nautilus/economics.py: risk_allows (Taker/Risk) and evaluate_taker
--                (Taker/Evaluate), with the returns and the freshness of the inputs; Taker/Swap is
--                normalize_mt5_points_swap
--   Quote        maker_economics.maker_quote
--   Admission    src/py000_nautilus/shared_admission.py: SharedSourceAdmission.__call__ over the views of an
--                Owner; Admission/Working and Admission/Loop are its sums, Admission/Admitted,
--                Admission/Verdict and Admission/Mismatch how it ends
--   Margin       src/py000_nautilus/margin.py: the capacity formulas; Margin/Facts reads an account event,
--                Margin/Accounts are the projections, Margin/Sample and Margin/Held what they read,
--                Margin/Room, Margin/Projected and Margin/Hedged what they leave
--   Projection   src/py000_nautilus/source_projection.py and hedge_projection.py for a JsonStateStore: the
--                native orders; below Projection/Source and Projection/Hedge stand the checks (Scan,
--                and Bound, which binds each hedge order to its intent), the write (Write) and how
--                the calls end (Project)
--   Tests        each property at a concrete input
--
-- How the state corresponds. A `Store` is a JsonStateStore object: `state` is its `_state`, `file`
-- what a new process would load (the last published state), `hooks` the calls of the hooks that a
-- restart coordinator installs, in order. A method is an action on a `Store`: it returns a value or
-- an error, and keeps what was written before a raise; `transaction` is the `try` that takes the
-- state back unless the error is the directory-sync error. The hedge planner and the Maker rules
-- are pure functions that return a result. An `Owner` is a MakerStateStore object with its direction
-- stores: `books` is what `_snapshot` copies, `committed` its `_committed`, and what the constructor
-- fixes is `Terms`. A set is a list without order.
--
-- Conventions. A Decimal of ounces or of price is a whole number of 10^-8 units, and finite; a
-- quotient in `_to_increment` and a `float` in the rounding are taken as exact, which holds below
-- 2^25 ounces and within the 28 digits of the context. Every recursion is on a list; no fuel is
-- used. What the operating system does is an argument (`DiskCalls`), and so are the digest of a
-- fill key, the text of a Decimal (`Platform`), the date of a client id, the
-- weekday in a time zone (`Calendar`), the text of an exception (`message`), and the arithmetic of
-- prices and returns (`Decimals`) and of margins (`CapacityContext`), which the decimal module
-- rounds to 28 digits. What the Nautilus cache and the account reader answer to one admission is its
-- `Surroundings`; a native order is a `NativeOrder` or a `VenueOrder` with the fields that are read.
--
-- Not modelled: JSON reading and writing; the adapters of the two venues, the Nautilus framework and
-- the live composition, which are I/O; the strategies' event handlers; the calls of JsonStateStore
-- through a Maker view other than reserve_source_fill; the projections onto a MakerStateStore;
-- restart_recovery.py and accounting_report.py; the MQL5 programs.
pub mod Base
pub mod Models
pub mod Hedge
pub mod Durability
pub mod Store
pub mod Coordinator
pub mod Maker
pub mod MakerStore
pub mod Cids
pub mod Quote
pub mod Taker
pub mod Accounts
pub mod Admission
pub mod Margin
pub mod Projection
pub mod Tests
