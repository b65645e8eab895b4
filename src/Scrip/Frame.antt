-- ===== src/Scrip/Frame.antt =====
-- What a handler of the fold leaves alone: the reservations, the seen ids, the epoch and the mode.
use dontguess.Base.{◌≡◌, arith}
use dontguess.Proto.{Message, ScripOp, mint}
use dontguess.Scrip.Types.{Config, Store}
use dontguess.Scrip.Balance.{add_to_balance, subtract_from_balance}
use dontguess.Scrip.Loans.{
  apply_loan_mint, apply_loan_repay, apply_loan_vig_accrue, mint_loan, open_loan, repay_loan,
  accrue, debit, credit_loan,
}
use dontguess.Scrip.Ledger.{
  dispatch, apply_mint, apply_burn, apply_put_pay, apply_buy_hold, apply_settle, apply_assign_pay,
  apply_dispute_refund,
}

pub record SameFrame (s t : Store) : Type 0 where
  pub same_reservations : t.reservations ≡ s.reservations
  pub same_seen : t.seen_msg_ids ≡ s.seen_msg_ids
  pub same_epoch : t.replay_epoch ≡ s.replay_epoch
  pub same_mode : t.replaying ≡ s.replaying

pub dispatch-SameFrame :
    (c : Config) (op : ScripOp) (m : Message) (s : Store) → SameFrame s (dispatch c op m s)
unfolding dispatch apply_mint apply_burn apply_put_pay apply_buy_hold apply_settle apply_assign_pay
    apply_dispute_refund add_to_balance subtract_from_balance apply_loan_mint apply_loan_repay
    apply_loan_vig_accrue mint_loan open_loan repay_loan accrue debit credit_loan
dispatch-SameFrame c mint m s = ground arith
dispatch-SameFrame c _ m s = ground arith
