-- ===== src/Models/Payments.antt =====
-- payments/models.py: the payments table, which this phase of the program only declares.
use kw_awards_voting_platfom.Prelude.{
  ℕ, Bool, true, false, ◌&&◌, ◌||◌, not, Option, Text, ltb, leb, is_some,
}

pub data PaymentStatus : Type 0 where
  initiated pending succeeded failed cancelled : PaymentStatus

abbrev pub is_succeeded : PaymentStatus → Bool
is_succeeded PaymentStatus.succeeded = true
is_succeeded _ = false

-- `amount` is in hundredths (`decimal_places=2`).
pub record Payment : Type 0 where
  pub id : ℕ
  pub voter : ℕ
  pub nomination : ℕ
  pub phone_e164 : Text
  pub amount : ℕ
  pub votes_purchased : ℕ
  pub status : PaymentStatus
  pub provider_receipt : Option Text

-- The check constraints of `Payment.Meta`.
unfoldable pub payment_checks : Payment → Bool
payment_checks p =
    ltb 0 p.amount
    && (leb 1 p.votes_purchased && (not (is_succeeded p.status) || is_some p.provider_receipt))
