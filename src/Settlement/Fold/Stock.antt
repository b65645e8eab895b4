-- ===== src/Settlement/Fold/Stock.antt =====
-- The operator's verdict on a put: applySettlePutAccept, applySettlePutReject, applyDerivativePut
-- (state_settle.go).
use dontguess.Base.{
  ℕ, Bool, false, Option, [], ◌∷◌, none, some, ◌==◌, lookup, insert, erase, get_or, is_some,
  if◌then◌else◌, ◌>>=◌,
}
use dontguess.Json.{
  Object, text_field, number_field, flag_field, price, expires_at, purge_content_hash,
}
use dontguess.Proto.{Message}
use dontguess.Assign.Types.{Config, DenialReason, record_fold_denial, not_operator}
use dontguess.Assign.Fold.{is_operator}
use dontguess.Sequencer.Ingest.{remove_from}
use dontguess.Settlement.Types.{InventoryEntry, Market}

-- Run a handler on what it looked up; `none` is its early return.
abbrev pub given : {A : Type 0} → Option A → Market → (A → Market) → Market
given none s f = s
given (some a) s f = f a

-- The first antecedent, as it is spelled.
abbrev pub antecedent : Message → Option ℕ
antecedent m = elim m.antecedents [ [] ↦ none | k ∷ _ ↦ some k ]

-- A denial changes nothing but the alarm.
unfoldable pub deny : DenialReason → Message → Market → Market
deny reason m s = record s { base = record_fold_denial reason m s.base }

-- The guard of the handlers of the operator.
unfoldable pub operator_only : Config → Message → Market → Market → Market
operator_only c m s t = if is_operator c m then t else deny not_operator m s

-- The price and the expiry of an accepted put: nothing changes where the payload is not decoded, and the
-- expiry stays where it is not a time.
unfoldable pub accept_terms : Config → Option Object → InventoryEntry → InventoryEntry
accept_terms c payload e = elim payload [
  | none ↦ e
  | some o ↦ elim (number_field price o) [
    | none ↦ e
    | some p ↦ elim (text_field expires_at o) [
      | none ↦ e
      | some t ↦ record e {
        put_price = p;
        expires_at = if t == 0 then e.expires_at else get_or e.expires_at (c.parse_time t);
      }
    ]
  ]
]

unfoldable pub accept_put : Config → Message → Market → Market
accept_put c m s = given (antecedent m) s λ put_msg.
    given (lookup put_msg s.stock.pending_puts) s λ e. record s {
      stock = record s.stock {
        pending_puts = erase put_msg s.stock.pending_puts;
        inventory = insert e.entry_id (accept_terms c m.payload e) s.stock.inventory;
      };
    }

unfoldable pub apply_settle_put_accept : Config → Message → Market → Market
apply_settle_put_accept c m s = operator_only c m s (accept_put c m s)

-- A trust reject releases the content hash, a quality reject keeps it.
abbrev pub purges : Option Object → Bool
purges payload = elim (payload >>= λ o. flag_field purge_content_hash o) [
  | none ↦ false
  | some b ↦ b
]

unfoldable pub reject_put : Message → Market → Market
reject_put m s = given (antecedent m) s λ put_msg. record s {
  stock = record s.stock {
    pending_puts = erase put_msg s.stock.pending_puts;
    content_hash_index = elim (lookup put_msg s.stock.pending_puts) [
      | none ↦ s.stock.content_hash_index
      | some e ↦
          if purges m.payload
          then remove_from e.content_hash s.stock.content_hash_index
          else s.stock.content_hash_index
    ];
  };
}

unfoldable pub apply_settle_put_reject : Config → Message → Market → Market
apply_settle_put_reject c m s = operator_only c m s (reject_put m s)

-- applyDerivativePut
unfoldable pub apply_derivative_put : InventoryEntry → Market → Market
apply_derivative_put e s =
    if is_some (lookup e.entry_id s.stock.inventory)
    then s
    else record s { stock = record s.stock { inventory = insert e.entry_id e s.stock.inventory } }
