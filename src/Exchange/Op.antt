-- ===== src/Exchange/Op.antt =====
-- isExchangeOpTag and exchangeOp of pkg/exchange/state_put.go.
use dontguess.Base.{Bool, true, false, Option, none, some, List, [], ◌∷◌}
use dontguess.Proto.{Tag, Tag-discrete}

-- Every operation tag counts, the scrip tags and consume included; a secondary marker does not.
abbrev pub is_exchange_op_tag : Tag → Bool
is_exchange_op_tag (Tag.scrip _) = true
is_exchange_op_tag (Tag.exchange _) = true
is_exchange_op_tag (Tag.other _) = false

-- `found != "" && t != found`
abbrev pub clashes : Option Tag → Tag → Bool
clashes none t = false
clashes (some found) t = elim (Tag-discrete t found) [ yes _ ↦ false | no _ ↦ true ]

-- The loop of exchangeOp, with the operation found so far.
unfoldable pub scan_ops : Option Tag → List Tag → Option Tag
scan_ops found [] = found
scan_ops found (t ∷ tags) = elim (is_exchange_op_tag t) [
  | false ↦ scan_ops found tags
  | true ↦ elim (clashes found t) [ true ↦ none | false ↦ scan_ops (some t) tags ]
]

unfoldable pub exchange_op : List Tag → Option Tag
unfolding scan_ops
exchange_op tags = scan_ops none tags
