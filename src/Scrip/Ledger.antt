-- ===== src/Scrip/Ledger.antt =====
-- applyMessage, its handlers for transfers, ApplyMessage and Replay of relay_store.go.
use dontguess.Base.{
  ℕ, Bool, true, false, Option, none, some, List, [], ◌∷◌, ◌==◌, ◌||◌, ◌&&◌, not, if◌then◌else◌,
  contains, ◌>>=◌,
}
use dontguess.Base.Int64.{add64, is_pos}
use dontguess.Json.{
  Name, Object, text_field, number_field, recipient, amount, seller, residual, fee_burned,
  exchange_revenue, buyer, worker,
}
use dontguess.Proto.{
  Message, Tag, ScripOp, mint, burn, put_pay, buy_hold, settle, assign_pay, dispute_refund,
  loan_mint, loan_repay, loan_vig_accrue,
}
use dontguess.Scrip.Types.{Config, Store, given}
use dontguess.Scrip.Balance.{add_to_balance, subtract_from_balance}
use dontguess.Scrip.Loans.{debit, apply_loan_mint, apply_loan_repay, apply_loan_vig_accrue}

-- Five payloads name a party and an amount; an empty party or an amount of 0 or less returns early.
unfoldable pub decode_party : Name → Option Object → Option (ℕ × ℕ)
decode_party n payload = do
  o ← payload
  k ← text_field n o
  x ← number_field amount o
  if k == 0 || not (is_pos x) then none else some (k, x)

unfoldable pub decode_burn : Option Object → Option ℕ
decode_burn payload = do o ← payload; x ← number_field amount o; if is_pos x then some x else none

-- The seller, the residual and the exchange revenue; fee_burned is decoded and not used.
unfoldable pub decode_settle : Option Object → Option (ℕ × ℕ × ℕ)
decode_settle payload = do
  o ← payload
  k ← text_field seller o
  x ← number_field residual o
  fee ← number_field fee_burned o
  y ← number_field exchange_revenue o
  some (k, x, y)

unfoldable pub apply_mint : Option Object → Store → Store
apply_mint payload s =
    given (decode_party recipient payload) s
      λ (k, x). let t = add_to_balance k x s in record t { total_supply = add64 t.total_supply x }

unfoldable pub apply_burn : Option Object → Store → Store
apply_burn payload s =
    given (decode_burn payload) s λ x. record s { total_burned = add64 s.total_burned x }

-- The sender pays the party; an empty sender is not debited.
unfoldable pub transfer : ℕ → ℕ → ℕ → Store → Store
unfolding debit
transfer sender k x s =
    let (t, covered) = debit sender x s in if covered then add_to_balance k x t else t

unfoldable pub apply_put_pay : ℕ → Option Object → Store → Store
unfolding transfer
apply_put_pay sender payload s =
    given (decode_party seller payload) s λ (k, x). transfer sender k x s

unfoldable pub apply_buy_hold : Option Object → Store → Store
apply_buy_hold payload s =
    given (decode_party buyer payload) s λ (k, x). (subtract_from_balance k x s).0

-- A credit that is made only to a named key and for a positive amount.
unfoldable pub credit_if : ℕ → ℕ → Store → Store
credit_if k x s = if not (k == 0) && is_pos x then add_to_balance k x s else s

unfoldable pub apply_settle : ℕ → Option Object → Store → Store
unfolding credit_if
apply_settle sender payload s =
    given (decode_settle payload) s λ (k, x, y). credit_if sender y (credit_if k x s)

unfoldable pub apply_assign_pay : ℕ → Option Object → Store → Store
unfolding transfer
apply_assign_pay sender payload s =
    given (decode_party worker payload) s λ (k, x). transfer sender k x s

unfoldable pub apply_dispute_refund : Option Object → Store → Store
apply_dispute_refund payload s = given (decode_party buyer payload) s λ (k, x). add_to_balance k x s

-- The first scrip tag, as scripOp finds it.
unfoldable pub scrip_op : List Tag → Option ScripOp
scrip_op [] = none
scrip_op (Tag.scrip op ∷ tags) = some op
scrip_op (Tag.exchange _ ∷ tags) = scrip_op tags
scrip_op (Tag.other _ ∷ tags) = scrip_op tags

-- The `switch` of applyMessage.
unfoldable pub dispatch : Config → ScripOp → Message → Store → Store
dispatch c mint m s = apply_mint m.payload s
dispatch c burn m s = apply_burn m.payload s
dispatch c put_pay m s = apply_put_pay m.sender m.payload s
dispatch c buy_hold m s = apply_buy_hold m.payload s
dispatch c settle m s = apply_settle m.sender m.payload s
dispatch c assign_pay m s = apply_assign_pay m.sender m.payload s
dispatch c dispute_refund m s = apply_dispute_refund m.payload s
dispatch c loan_mint m s = apply_loan_mint c m.payload s
dispatch c loan_repay m s = apply_loan_repay m.payload s
dispatch c loan_vig_accrue m s = apply_loan_vig_accrue m.payload s

unfoldable pub is_authorized : Config → ℕ → Bool
is_authorized c sender = c.operator_key == 0 || sender == c.operator_key

-- What applyMessage does once the id is recorded as seen.
unfoldable pub apply_new : Config → Option ScripOp → Message → Store → Store
unfolding is_authorized
apply_new c none m s = s
apply_new c (some op) m s = if is_authorized c m.sender then dispatch c op m s else s

unfoldable pub apply_message : Config → Message → Store → Store
unfolding apply_new contains scrip_op
apply_message c m s =
    if contains m.id s.seen_msg_ids
    then s
    else apply_new c (scrip_op m.tags) m (record s { seen_msg_ids = m.id ∷ s.seen_msg_ids })

unfoldable pub fold_messages : Config → List Message → Store → Store
fold_messages c [] s = s
fold_messages c (m ∷ log) s = fold_messages c log (apply_message c m s)

-- The state that Replay resets before it folds: reservations are kept.
unfoldable pub reset : Store → Store
reset s = record s {
  balances = [];
  loans = [];
  loans_by_borrower = [];
  seen_msg_ids = [];
  total_supply = 0;
  total_burned = 0;
  total_loan_principal = 0;
  replay_epoch = add64 s.replay_epoch 1;
  replaying = true;
}

-- Replay, on what the event log returned; `none` is an error of the log, and changes nothing.
unfoldable pub replay : Config → Option (List Message) → Store → Store × Bool
unfolding fold_messages reset
replay c none s = (s, false)
replay c (some log) s = (record (fold_messages c log (reset s)) { replaying = false }, true)
