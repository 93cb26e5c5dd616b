-- ===== src/Errors.antt =====
-- The exceptions that the payroll and accounting domain raises (ValueError and its subclasses, by
-- what their messages say).
use Prim.Native.String.{String}

pub data ValueError : Type 0 where
  -- f"{name} must not be negative"
  negative : String → ValueError
  -- f"{name} must be positive"
  not_positive : String → ValueError
  unknown_currency : String → ValueError
  currency_mismatch : ValueError
  unknown_wht_category : String → ValueError
  net_pay_negative : ValueError
  loan_exceeds_net : ValueError
  benefit_exceeds_net : ValueError
  dues_exceed_net : ValueError
  missing_tin : ValueError
  tenure_too_short : ValueError
  principal_too_large : ValueError
  package_not_positive : ValueError
  no_bracket : ValueError
  too_few_lines : ValueError
  both_or_neither_side : ValueError
  unbalanced : ValueError
  -- Inventory journals and the tax engine.
  inventory_unbalanced : ValueError
  malformed_rule_set : ValueError
  not_in_force : ValueError
  no_rules_for_frequency : ValueError
  missing_employee_data : String → ValueError
  no_rate_or_amount : String → ValueError
  no_expense_account : String → ValueError
  not_a_levy : String → ValueError
  deductions_exceed_net : ValueError
  not_at_least_one : String → ValueError
  active_loan_exists : ValueError
  loan_not_active : ValueError
  uncapped_group : String → ValueError
  -- The ledger.
  period_locked : ValueError
  unknown_account : String → ValueError
  inactive_account : String → ValueError
  already_posted : ValueError
  reason_required : ValueError
  journal_not_found : ValueError
  reversal_of_reversal : ValueError
  already_reversed : ValueError
  malformed_digits : String → ValueError
  -- Stock: the costing, the quantities and the posting engine.
  pool_negative : ValueError
  pool_without_quantity : ValueError
  not_an_increase : ValueError
  not_a_decrease : ValueError
  insufficient_stock : ValueError
  quantity_too_large : ValueError
  nothing_to_post : ValueError
  zero_movement : ValueError
  increase_without_value : ValueError
  lots_not_tracked : ValueError
  lot_not_named : ValueError
  -- The lifecycle of a pay run.
  run_not_draft : ValueError
  run_not_validated : ValueError
  run_not_locked : ValueError
  run_not_discardable : ValueError
  employee_without_tin : ValueError
  variance_not_acknowledged : ValueError
  liabilities_acted_on : ValueError
  -- Leave.
  row_not_found : ValueError
  end_before_start : ValueError
  request_not_pending : ValueError
  insufficient_leave : ValueError
  -- Fixed assets.
  salvage_not_below_cost : ValueError
  assignee_required : ValueError
  depreciation_not_opening : ValueError
  depreciation_too_large : ValueError
  asset_not_available : ValueError
  asset_not_active : ValueError
  fully_depreciated : ValueError
  same_value : ValueError
