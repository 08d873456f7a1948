-- ===== src/Billing/Records.antt =====
-- The rows that src/modules/billing/billing.service.ts reads and writes (their columns are those of
-- prisma/schema.prisma), and the statuses of a subscription operation.
use desk_be.Common.{ℕ, String, Bool, Option}

-- `RAZORPAY_OPERATION_STATUS`, with the legacy value that old rows still hold
pub data Status : Type 0 where
  pending cleanup_pending cancel_requested completed abandoned failed retrying : Status

-- `RAZORPAY_OPERATION_TYPE`; the column holds any string
pub data Kind : Type 0 where
  replace_subscription cancel_subscription : Kind
  other_kind : String → Kind

-- `SubscriptionOperation`. Times are milliseconds since the epoch. Of the column `metadata` the
-- two entries that the code writes are kept.
pub record Operation : Type 0 where
  pub operation_key : String
  pub workspace_id : String
  pub provider : String
  pub kind : Kind
  pub status : Status
  pub old_provider_sub_id : Option String
  pub new_provider_sub_id : Option String
  pub plan : Option String
  pub retry_count : ℕ
  pub next_retry_at : ℕ
  pub locked_at : Option ℕ
  pub lock_expires_at : Option ℕ
  pub last_error : Option String
  pub cancel_at_cycle_end : Option Bool
  pub refund_amount : Option ℕ
  pub updated_at : ℕ

-- The columns of `Subscription` that the operations touch.
pub record Subscription : Type 0 where
  pub id : String
  pub workspace_id : String
  pub plan : String
  pub status : String
  pub provider : Option String
  pub provider_customer_id : Option String
  pub provider_sub_id : Option String
  pub current_period_start : Option ℕ
  pub current_period_end : Option ℕ
  pub pending_plan : Option String
  pub pending_effective_at : Option String
  pub pending_provider_sub_id : Option String
  pub last_refund_amount : Option ℕ
  pub last_refund_status : Option String
  pub last_refund_at : Option ℕ
  pub cancel_at_period_end : Bool

-- A row of `Payment`, with `metadata.subscription_id`.
pub record Payment : Type 0 where
  pub workspace_id : String
  pub subscription_id : Option String
  pub provider : String
  pub status : String
  pub provider_payment_id : Option String
  pub metadata_subscription_id : Option String
  pub paid_at : Option ℕ
  pub created_at : ℕ

-- `RazorpaySubscriptionLike`
pub record ProviderSubscription : Type 0 where
  pub status : Option String
  pub customer_id : Option String
  pub notes_plan : Option String
  pub current_start : Option ℕ
  pub current_end : Option ℕ
  pub charge_at : Option ℕ
