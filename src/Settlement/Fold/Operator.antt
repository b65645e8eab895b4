-- ===== src/Settlement/Fold/Operator.antt =====
-- The operator's messages of a sale: applyMatch (state_buy.go), applySettlePreview and
-- applySettleDeliver (state_settle.go).
use dontguess.Base.{
  ℕ, Bool, false, not, ◌&&◌, ◌||◌, Option, none, some, List, [], ◌∷◌, ◌==◌, lookup, insert, get_or,
  is_some, if◌then◌else◌, ◌>>=◌,
}
use dontguess.Json.{Object, entries_field, results}
use dontguess.Proto.{Message, Tag}
use dontguess.Assign.Types.{Config}
use dontguess.Assign.Fold.{is_operator}
use dontguess.Settlement.Types.{ActiveOrder, Chain, Counts, Market, Texts, bump, bump_in, add_to}
use dontguess.Settlement.Fold.Stock.{given, antecedent, operator_only}

-- tagsContain, for a tag that is no operation.
unfoldable pub tags_contain : ℕ → List Tag → Bool
tags_contain t [] = false
tags_contain t (Tag.other u ∷ tags) = t == u || tags_contain t tags
tags_contain t (_ ∷ tags) = tags_contain t tags

-- The results with an id.
abbrev named : List ℕ → List ℕ
named [] = []
named (e ∷ l) = if e == 0 then named l else e ∷ named l

-- The entries that a match offers; the first is the one that is sold when the buyer names none.
unfoldable pub offer : ℕ → Option Object → Chain → Chain
offer msg payload c = elim (payload >>= λ o. entries_field results o) [
  | none ↦ c
  | some [] ↦ c
  | some (e ∷ l) ↦ record c {
    match_to_entry = insert msg e c.match_to_entry;
    match_to_results = insert msg (named (e ∷ l)) c.match_to_results;
  }
]

-- The buyer and the guarantee of the order that a match fulfills.
unfoldable pub match_order : ℕ → ℕ → Option ActiveOrder → Chain → Chain
match_order msg buy_msg order c =
    let matched = record c {
      matched_orders = add_to buy_msg c.matched_orders;
      match_to_buy_msg = insert msg buy_msg c.match_to_buy_msg;
    } in
    elim order [
      | none ↦ matched
      | some o ↦ record matched {
        match_to_buyer = insert msg o.buyer_key c.match_to_buyer;
        match_guarantee = elim o.guarantee_deadline [
          | none ↦ c.match_guarantee
          | some t ↦ insert msg (t, o.insured_amount) c.match_guarantee
        ];
      }
    ]

-- applyMatch; a demand-only match leaves these maps alone.
unfoldable pub apply_match : Texts → Message → Market → Market
apply_match x m s =
    if is_operator x.config m && not (tags_contain x.demand_only m.tags)
    then (given (antecedent m) s λ buy_msg. record s {
      chain =
          offer m.id m.payload
            (match_order m.id buy_msg (lookup buy_msg s.stock.active_orders) s.chain);
    })
    else s

unfoldable pub record_preview : Message → Market → Market
record_preview m s = given (antecedent m) s λ request.
    given (lookup request s.chain.preview_request_to_match) s λ matched. record s {
      chain = record s.chain { preview_to_match = insert m.id matched s.chain.preview_to_match };
    }

unfoldable pub apply_settle_preview : Config → Message → Market → Market
apply_settle_preview c m s = operator_only c m s (record_preview m s)

-- The counters of a deliver, by entry and by buyer.
unfoldable pub deliver_counts : ℕ → ℕ → Counts → Counts
deliver_counts entry buyer n = if entry == 0 then n else record n {
  entry_deliver_count = bump entry n.entry_deliver_count;
  buyer_deliver_count =
      if buyer == 0 then n.buyer_deliver_count else bump buyer n.buyer_deliver_count;
  entry_deliver_buyer_count =
      if buyer == 0
      then n.entry_deliver_buyer_count
      else bump_in entry buyer n.entry_deliver_buyer_count;
}

-- The deliver of a match; 0 is no match.
unfoldable pub deliver_match : Message → ℕ → Market → Market
deliver_match m matched s =
    let entry = get_or 0 (lookup matched s.chain.match_to_entry) in
    let buyer = get_or 0 (lookup matched s.chain.match_to_buyer) in
    if matched == 0 then s else record s {
      chain = record s.chain {
        delivered_orders = add_to matched s.chain.delivered_orders;
        deliver_to_match = insert m.id matched s.chain.deliver_to_match;
        deliver_time_by_match = insert matched m.timestamp s.chain.deliver_time_by_match;
      };
      counts = deliver_counts entry buyer s.counts;
    }

unfoldable pub new_deliver : Message → Market → Market
new_deliver m s =
    given (antecedent m) s
      λ accept_msg. deliver_match m (get_or 0 (lookup accept_msg s.chain.buyer_accept_to_match)) s

-- A deliver is folded once.
unfoldable pub record_deliver : Message → Market → Market
record_deliver m s = if is_some (lookup m.id s.chain.deliver_to_match) then s else new_deliver m s

unfoldable pub apply_settle_deliver : Config → Message → Market → Market
apply_settle_deliver c m s = operator_only c m s (record_deliver m s)
