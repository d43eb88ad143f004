-- ===== src/Lib.antt =====
-- construction_erp_nestjs: a verification library of the accounting core of the construction ERP
-- backend (NestJS over TypeORM and PostgreSQL).
--
-- The program. A voucher module asks the posting service (src/core/posting) to write a journal entry.
-- The service asks the periods (src/core/period) whether the date is open, the master data whether the
-- references hold, checks the tag matrix and the balance, draws a number (src/core/numbering) and saves
-- the entry. Inventory (src/modules/inventory) values stock at its weighted average, for the modules
-- that receive and issue goods. A thrown value becomes an HTTP envelope (src/infrastructure/http).
--
-- The files.
--   Prelude: Boolean tests, lists, integers over the native numbers, text as its UTF-16 code units.
--   Errors: Codes has the codes of src/common/errors/domain-error.ts, Monads and Action the two shapes
--     of fallible code, Http and Envelope the tables and the filter of src/infrastructure/http.
--   Decimal: the package decimal.js, which is a parameter: its operations are the record DecimalLib,
--     and what the program relies on is the record Exact, stated on numbers that fit the columns
--     numeric(18,4).
--   Posting: Command, Tags, Entry, Build and Service model voucher-type.ts, posting-command.ts,
--     tag-matrix.ts, journal-entry.ts and posting.service.ts of src/core/posting. `Ports` is the record
--     of the interfaces that the service takes; the children of Service use it with ReadOnly and
--     EntryStore, which state what the ports document.
--   Dates: date-only.ts of src/common/value-objects, with `Date.UTC` as it normalizes its arguments.
--   Period: Aggregate, Table, Methods and Span model accounting-period.ts, the repository over the rows,
--     the use cases and the guard of posting, and period-generation.ts of src/core/period; Named and
--     Generate model generate-periods.use-case.ts.
--   Numbering: Format, Series and Admin model numbering-series.ts, the allocator, and the use cases with
--     their repository of src/core/numbering.
--   Inventory: Valuation, Movement and Store model valuation.ts, stock-movement.ts, and the service with
--     its repository of src/modules/inventory.
--     Draft and Journal model stock-journal.ts and stock-journal-mode.ts, Sides and Vouchers
--     the use cases post-stock-journal and reverse-stock-journal, over the posting service.
--   Books: one database of periods, series and entries, and the ports of the posting service as
--     posting.module.ts binds them: typeorm-journal-entry.repository.ts and mas-seam.adapters.ts of
--     src/core/posting, the guard of the periods, the allocator of numbers. `run` is the transaction
--     of src/infrastructure/unit-of-work.
--   Purchase: Tax, Match, Bill with Lifecycle, BillPosting and Order model tax.ts, match.ts,
--     purchase-bill.ts, bill-posting.ts and purchase-order.ts of src/modules/purchase/domain.
--   Requisition: Aggregate models requisition.ts of src/modules/requisition; Reach has its lifecycle.
--   Tests: concrete inputs, and an instance of the decimals.
--
-- How state is modelled. A method is an Action: a function from the state of the transaction to a result
-- and a state. What was written before a throw stays in that state, since the transaction that undoes it
-- belongs to the caller. Rows of a table are a list; an update is a map over it. Ids and times come from
-- functions of the number of earlier calls. One transaction runs at a time, as the row locks arrange it.
--
-- Bounds and fuel. Money and quantities are counted in ten-thousandths where a theorem speaks of sums;
-- the bound is that of numeric(18,4). The loop over the months of a year runs on one more step than
-- there are months from the first to the last, and its theorem says that this is enough; a year below
-- 100 is one of the 20th century to `Date.UTC`, and an end after 9999 no date. A counter of numbers stops
-- at the largest value of its integer column. The digits of
-- a number run on one more step than the number. `Date.UTC` with a day of two digits passes the ends of
-- at most three months, and its loop has four steps.
--
-- Not modelled: goods receipts and the use cases of the purchases; the modules of sales, payment,
-- receipt, contra journals and human resources, master data, authentication, reports, and all wiring,
-- which are not part of the accounting core or only read; the drafts and use cases of the requisitions;
-- the use cases that create, edit, approve and delete stock journals; the query services, controllers
-- and most mappers of the modelled parts; the messages and details of the error envelope. The only
-- currency is BDT, so it is left out of Money. A date column is compared as its text YYYY-MM-DD, which
-- Dates.Order shows to order as the dates do.

pub mod Prelude
pub mod Errors
pub mod Decimal
pub mod Posting
pub mod Dates
pub mod Period
pub mod Numbering
pub mod Inventory
pub mod Books
pub mod Purchase
pub mod Requisition
pub mod Tests
