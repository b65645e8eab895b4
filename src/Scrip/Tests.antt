-- ===== src/Scrip/Tests.antt =====
-- A small log, run through the ledger, and the theorems at it.
use dontguess.Base.{
  ℕ, ◌≡◌, refl, false, some, List, [], ◌∷◌, ◌++◌, ◌==◌, lookup, insert, if◌then◌else◌, arith,
  contains,
}
use dontguess.Base.Int64.{add64, sub64, is_neg, slt}
use dontguess.Base.Sums.{sum_by}
use dontguess.Json.{
  Object, text, number, text_field, number_field, recipient, amount, seller, residual,
  exchange_revenue, buyer, borrower, principal, loan_id,
}
use dontguess.Proto.{Message, Tag, ScripOp, mint, buy_hold, settle, loan_mint, loan_repay}
use dontguess.Scrip.Types.{Config, Store, Reservation, stamp, empty_store}
use dontguess.Scrip.Balance.{add_to_balance, subtract_from_balance}
use dontguess.Scrip.Budget.{
  balance, get_budget, decrement_budget, ok, err, conflict, reservation_not_found,
}
use dontguess.Scrip.Reservations.{
  save_reservation, consume_reservation, delete_reservation, get_reservation,
}
use dontguess.Scrip.Loans.{
  decode_loan_mint, decode_loan_amount, apply_loan_mint, apply_loan_repay, mint_loan, open_loan,
  repay_loan, active_loan, borrower_loans,
}
use dontguess.Scrip.Ledger.{
  apply_message, fold_messages, replay, reset, decode_party, decode_settle, dispatch, apply_mint,
  apply_buy_hold, apply_settle,
}
use dontguess.Scrip.LoanTotals.{BookIsValid, apply_message-BookIsValid}
use dontguess.Scrip.LoanIndex.{IndexMatches, apply_message-IndexMatches}
use dontguess.Scrip.Escrow.{escrow}
use dontguess.Scrip.Conservation.{total_in, total_out, replay-Accounts}
use dontguess.Scrip.Idempotence.{fold_messages_redelivery}
use dontguess.Scrip.NonNegative.{IsLive}
use dontguess.Scrip.LiveLog.{credit_total, fold_messages_nonnegative}
use dontguess.Scrip.Etags.{decrement_budget_once, decrement_budget_fresh}
use dontguess.Scrip.StaleEtags.{decrement_budget_after_replay}
use dontguess.Scrip.Holds.{consume-save_reservation}

-- The operator is 1; agents are 2 and 3.
abbrev exchange : Config
exchange = record { operator_key = 1; parse_time = λ s. some s }

abbrev message : ℕ → ℕ → ScripOp → Object → Message
message id sender op o = record {
  id = id;
  sender = sender;
  payload = some o;
  tags = Tag.other 7 ∷ Tag.scrip op ∷ [];
  antecedents = [];
  timestamp = 0;
}

abbrev minted : Message
minted = message 10 1 mint ((recipient, text 2) ∷ (amount, number 1000) ∷ [])

abbrev held : Message
held = message 11 1 buy_hold ((buyer, text 2) ∷ (amount, number 600) ∷ [])

abbrev settled : Message
settled =
    message 12 1 settle
      ((seller, text 3) ∷ (residual, number 100) ∷ (exchange_revenue, number 440) ∷ [])

abbrev lent : Message
lent =
    message 13 1 loan_mint ((borrower, text 2) ∷ (loan_id, text 77) ∷ (principal, number 50) ∷ [])

abbrev repaid_half : Message
repaid_half = message 14 1 loan_repay ((loan_id, text 77) ∷ (amount, number 25) ∷ [])

abbrev forged : Message
forged = message 15 3 mint ((recipient, text 3) ∷ (amount, number 9) ∷ [])

abbrev log : List Message
log = minted ∷ held ∷ settled ∷ lent ∷ repaid_half ∷ forged ∷ held ∷ []

abbrev ledger : Store
ledger = (replay exchange (some log) empty_store).0

-- The operator earned its revenue, the buyer was debited once, and 60 stay in escrow.
replayed :
    (balance 1 ledger ≡ 440)
    × (balance 2 ledger ≡ 425)
    × (balance 3 ledger ≡ 100)
    × (escrow ledger ≡ 60)
unfolding replay balance escrow text_field number_field decode_party decode_settle decode_loan_mint
    decode_loan_amount apply_message dispatch apply_mint apply_buy_hold apply_settle apply_loan_mint
    apply_loan_repay mint_loan open_loan repay_loan active_loan add_to_balance subtract_from_balance
    add64 sub64 slt lookup insert
replayed = (refl, refl, refl, refl)

apply_message-BookIsValid_example : BookIsValid (apply_message exchange lent empty_store)
unfolding lookup sum_by
apply_message-BookIsValid_example =
    apply_message-BookIsValid exchange lent empty_store (λ id r e. cc, refl)

apply_message-IndexMatches_example : IndexMatches (apply_message exchange lent empty_store)
unfolding lookup borrower_loans contains
apply_message-IndexMatches_example =
    apply_message-IndexMatches exchange lent empty_store (λ k id. refl)

replay-Accounts_example :
    add64 (escrow ledger) (total_out exchange log (reset empty_store))
    ≡ total_in exchange log (reset empty_store)
replay-Accounts_example = replay-Accounts exchange log empty_store (omega arith)

fold_messages_redelivery_example :
    fold_messages exchange ((minted ∷ held ∷ []) ++ held ∷ lent ∷ []) empty_store
    ≡ fold_messages exchange ((minted ∷ held ∷ []) ++ lent ∷ []) empty_store
unfolding contains
fold_messages_redelivery_example =
    fold_messages_redelivery exchange (minted ∷ held ∷ []) (lent ∷ []) held empty_store refl

credit_total-log : credit_total exchange log ≡ 1599
unfolding credit_total text_field number_field decode_party decode_settle decode_loan_mint
credit_total-log = refl

empty_store-IsLive : IsLive 0 empty_store
empty_store-IsLive = record { bounded = tt; live = refl }

fold_messages_nonnegative_example :
    is_neg (balance 2 (fold_messages exchange log empty_store)) ≡ false
fold_messages_nonnegative_example =
    fold_messages_nonnegative exchange log 0 empty_store 2 empty_store-IsLive
      (omega (arith, credit_total-log))

-- One entry, as AddBudget makes it.
abbrev funded : Store
funded = record empty_store { balances = (2, record { value = 500; gen = 1; epoch = 0 }) ∷ [] }

decrement_budget_once_example :
    let t = (decrement_budget 2 300 (stamp 0 1) funded).0 in
    decrement_budget 2 100 (stamp 0 1) t ≡ (t, err conflict)
unfolding decrement_budget lookup sub64 add64
decrement_budget_once_example =
    decrement_budget_once 2 300 100 (stamp 0 1) funded (200, stamp 0 2) refl

decrement_budget_fresh_example :
    let (t, r) = decrement_budget 2 300 (get_budget 2 funded).1 funded in
    (r ≡ ok (get_budget 2 t))
    × (balance 2 t ≡ sub64 (balance 2 funded) 300)
    × ((j : ℕ) → get_budget j t ≡ (if j == 2 then get_budget 2 t else get_budget j funded))
unfolding lookup sub64 add64
decrement_budget_fresh_example =
    decrement_budget_fresh 2 300 funded {e = record { value = 500; gen = 1; epoch = 0 }} refl

decrement_budget_after_replay_example :
    let t = fold_messages exchange (held ∷ []) (replay exchange (some log) funded).0 in
    decrement_budget 2 300 (get_budget 2 funded).1 t ≡ (t, err conflict)
decrement_budget_after_replay_example =
    decrement_budget_after_replay exchange log (held ∷ []) 2 2 300 funded
      (record { stamped = (refl, tt); current = refl })

abbrev hold : Reservation
hold = record { id = 21; agent_key = 2; rk = 5; etag = stamp 0 1; amount = 600; created_at = 3 }

consume-save_reservation_example :
    let t = (consume_reservation 21 (save_reservation hold empty_store)).0 in
    ((consume_reservation 21 (save_reservation hold empty_store)).1 ≡ ok hold)
    × (consume_reservation 21 t ≡ (t, err reservation_not_found))
    × (delete_reservation 21 t ≡ (t, err reservation_not_found))
    × ((j : ℕ)
        → get_reservation j t
          ≡ (if j == 21 then err reservation_not_found else get_reservation j empty_store))
consume-save_reservation_example = consume-save_reservation hold empty_store
