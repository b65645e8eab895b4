-- ===== src/Proto.antt =====
-- pkg/proto/message.go: the message that every component folds. Texts (ids, keys) are numbers, and
-- the empty text is 0; `payload` is `none` where the bytes are no JSON that decodes into a struct,
-- and the empty object where they are the literal null, which encoding/json decodes into a struct
-- without a change.
use dontguess.Base.{ℕ, Option, List}
use native.Mathlib.Decide.{ℕ_discrete}
use dontguess.Json.{Object}

-- The scrip operation tags of pkg/scrip/messages.go.
pub data ScripOp : Type 0 where
  mint burn put_pay buy_hold settle assign_pay dispute_refund : ScripOp
  loan_mint loan_repay loan_vig_accrue : ScripOp

-- The other operation tags that pkg/exchange names.
pub data ExchangeOp : Type 0 where
  put buy match settle consume reprice : ExchangeOp
  assign assign_claim assign_complete assign_accept assign_reject assign_expire : ExchangeOp
  assign_auction_close : ExchangeOp

pub data Tag : Type 0 where
  scrip : ScripOp → Tag
  exchange : ExchangeOp → Tag
  other : ℕ → Tag

pub Tag-discrete : Discrete Tag
Tag-discrete = hlevel ℕ_discrete

pub record Message : Type 0 where
  pub id : ℕ
  pub sender : ℕ
  pub payload : Option Object
  pub tags : List Tag
  pub antecedents : List ℕ
  pub timestamp : ℕ
