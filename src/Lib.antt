-- ===== src/Lib.antt =====
-- The payroll, tax, loan, leave, accounting, asset and inventory-posting core of the Plutus HR backend (app/).
--
-- The program is a Python service. Its pure rules are under app/domain and app/compliance; the
-- services under app/services read the database, call those rules and write the results; app/api,
-- app/schemas, app/models and app/workers carry requests, rows and jobs. A pay run takes each
-- employee's inputs, works out the statutory lines and the net pay (Nigeria by its own path, the other
-- countries by the engine), takes loan, benefit and union deductions from what is left, and posts a
-- balanced journal of each payslip to an append-only ledger.
--
-- Files and code:
--   Prelude          Python's integers over native numbers, Boolean tests, exceptions as results.
--   Errors           the exceptions, by what their messages say.
--   Totals           the dict of running totals that the posting rules keep by account.
--   Calendar         what the code uses of datetime.date.
--   Money            app/domain/money.py: minor units and the one rounding rule.
--   Compliance       app/compliance/models.py and versions/ng_2026_1.py: Nigeria's rules.
--   Accounting       app/domain/accounting/posting_rules.py: entries, mirrors, remittances.
--   Inventory        app/domain/inventory/accounting.py: legs, netted journals, vendor bills.
--   Payroll          app/domain/payroll: statutory lines, PAYE, the payslip, benefits, postings and
--                    gross-up; Payroll/Settle is the cascade of deductions and Payroll/Postings the
--                    journal lines of process_employee_payslip in app/services/payroll.py.
--   Payroll/Proration app/domain/payroll/proration.py: working days and the pay of part of a period.
--   Lifecycle        app/services/pay_run_lifecycle.py: validating, locking, reversing and discarding
--                    runs, with run_pay_run and _record_period_effects of app/services/payroll.py and
--                    the NSITF accrual of app/services/statutory_liability.py.
--   Permissions      app/domain/permissions.py and app/services/permissions.py: roles and overrides.
--   Assets           app/services/fixed_assets.py: the register of fixed assets and its journals.
--   Leave            app/services/leave.py and app/services/leave_encashment.py: requests, the balance
--                    of a leave year and decisions on them.
--   Loans            app/domain/payroll/loans.py, app/services/loans.py and the scheduling and
--                    recording of repayments in app/services/payroll.py.
--   Approvals        app/services/approvals.py: workflows, eligibility and decisions.
--   Ledger           app/services/posting.py and require_open_period: the append-only journals;
--                    Ledger/Manual is post_manual_journal_entry of app/services/general_ledger.py.
--   Tables           the queries on lists of rows that Leave and Assets share.
--   Nuban            app/domain/nuban.py: the check digit of bank account numbers.
--   Stock            app/domain/inventory/costing.py and quantities.py, app/services/
--                    inventory_posting.py: the stock ledger, its projections and their costing;
--                    Stock/Transfers is the pair of postings of app/services/inventory_transfers.py.
--   Engine           app/compliance/engine: rule sets, rounding, due dates, the calculation of
--                    payslips and levies, and their journals.
--
-- Each function of the code is a definition of the same name; a long function is split where its
-- stages meet, and the part is named for the value that it works out. A dataclass is a record, an enum
-- or a union a data type. An exception is the `err` of a `Result`, so that a chain of calls is a `do`
-- block in the code's order. A query of the database is a value that the definition takes: the store
-- it reads is not modelled, except where a definition passes its rows along (the repayments of a loan,
-- the steps and decisions of a workflow). Timestamps and free-text descriptions are left out unless a
-- guard reads them; identifiers are numbers.
--
-- Amounts are unbounded integers, as in Python; the columns that hold them are BIGINT, whose range is
-- not modelled. `//` is the floor at a positive divisor; where the code divides by a number that a
-- guard or the validation of a rule set makes positive, the model reads its positive part.
--
-- Stock quantities are whole numbers of ten-thousandths of a unit, as their columns hold them. The
-- decimal module's products and quotients are rounded to the 28 digits of its default context before a
-- value is rounded to minor units. The search for those digits runs over 28 places below the point and
-- 40 digits above it, and the columns allow at most 33 digits before the point.
--
-- A pay run's calculation of one payslip enters the lifecycle as a value that may be an error (Payroll
-- and Engine have the calculations themselves), and so do the amounts of the schemes.
--
-- Loops are recursion on the list that they run through. The two loops of the gross-up run on the
-- code's own limit of 128 rounds, and end in its error where that is reached. The working-day loop of
-- the engine's due dates runs on three rounds for each day asked for, since of any three days in a row
-- one is a working day.
--
-- Not modelled: the HTTP layer and its schemas, the ORM models beyond the fields named, the workers,
-- e-mail, PDF and export code, analytics and reports, the indirect taxes, settings and registry of the
-- engine, the validation of a rule set (the calculation is modelled from where a rule set has passed
-- it), the documents of inventory other than the moves of a transfer, and the services that only store and list rows.
pub mod Prelude
pub mod Errors
pub mod Totals
pub mod Calendar
pub mod Money
pub mod Compliance
pub mod Accounting
pub mod Inventory
pub mod Payroll
pub mod Loans
pub mod Engine
pub mod Approvals
pub mod Ledger
pub mod Nuban
pub mod Stock
pub mod Lifecycle
pub mod Permissions
pub mod Leave
pub mod Tables
pub mod Assets
