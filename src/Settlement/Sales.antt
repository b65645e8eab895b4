-- ===== src/Settlement/Sales.antt =====
-- The states that matches and settle messages reach, and what a completed sale is in them.
use dontguess.Base.{
  ℕ, ◌≡◌, true, not, ◌&&◌, Option, none, some, [], inl, inr, arith, lookup, get_or, lookup-insert,
  contains, Option-cases, if-keeps,
}
use dontguess.Json.{Object}
use dontguess.Proto.{Message}
use dontguess.Assign.Types.{State}
use dontguess.Assign.Fold.{is_operator}
use dontguess.Settlement.Types.{Market, Texts, ActiveOrder, Stock, Chain, Counts}
use dontguess.Settlement.Fold.Stock.{antecedent}
use dontguess.Settlement.Fold.Operator.{offer, match_order, tags_contain, apply_match}
use dontguess.Settlement.Fold.Complete.{apply_settle}
use dontguess.Settlement.Repeat.Basics.{given-keeps}
use dontguess.Settlement.Links.{Linked, SameLinks, SameLinks-Linked, apply_settle-Linked}

offer-SameLinks :
    (msg : ℕ) (payload : Option Object) (c : Chain) → SameLinks c (offer msg payload c)
unfolding offer
offer-SameLinks msg payload c = record {
  accepted = ground arith;
  delivered = ground arith;
  orders = ground arith;
  completed = ground arith;
  buyer = ground arith;
}

match_order-Linked :
    (msg buy_msg : ℕ) (o : Option ActiveOrder) (c : Chain)
    → lookup msg c.match_to_buyer ≡ none
    → Linked c
    → Linked (match_order msg buy_msg o c)
unfolding match_order
match_order-Linked msg buy_msg none c h l = record {
  accepts = l.accepts;
  delivers = l.delivers;
  completed = l.completed;
  buyers = l.buyers;
}
match_order-Linked msg buy_msg (some o) c h l = record {
  accepts =
      λ a k f. ground (arith, l.accepts a k f, lookup-insert k msg o.buyer_key c.match_to_buyer);
  delivers =
      λ d k f. ground (arith, l.delivers d k f, lookup-insert k msg o.buyer_key c.match_to_buyer);
  completed = l.completed;
  buyers = λ d b f.
      let k = get_or 0 (lookup d c.deliver_to_match) in
      ground (arith, l.buyers d b f, lookup-insert k msg o.buyer_key c.match_to_buyer);
}

record Valid (s : Market) : Type 0 where
  links : Linked s.chain

-- A match with a new id.
apply_match-Valid :
    (x : Texts) (m : Message) (s : Market)
    → lookup m.id s.chain.match_to_buyer ≡ none
    → Valid s
    → Valid (apply_match x m s)
unfolding apply_match
apply_match-Valid x m s h v =
    if-keeps (λ t. Valid t) (is_operator x.config m && not (tags_contain x.demand_only m.tags)) _ s
      (given-keeps (λ t. Valid t) (antecedent m) s _ v
        λ k _. record {
          links =
              let o = lookup k s.stock.active_orders in
              let c = match_order m.id k o s.chain in
              SameLinks-Linked c (offer m.id m.payload c) (offer-SameLinks m.id m.payload c)
                (match_order-Linked m.id k o s.chain h v.links);
        })
      v

-- The messages of a sale. The id of a match is new.
pub data Step (x : Texts) : Market → Market → Type 0 where
  matched :
      {s : Market} (m : Message)
      → lookup m.id s.chain.match_to_buyer ≡ none
      → Step x s (apply_match x m s)
  settled : {s : Market} (m : Message) → Step x s (apply_settle x m s)

unfoldable pub no_sales : Chain
no_sales = record {
  matched_orders = [];
  match_to_buy_msg = [];
  match_to_buyer = [];
  match_guarantee = [];
  match_to_entry = [];
  match_to_results = [];
  preview_request_to_match = [];
  preview_to_match = [];
  previews_by_entry = [];
  accepted_orders = [];
  buyer_accept_to_match = [];
  delivered_orders = [];
  deliver_to_match = [];
  deliver_time_by_match = [];
  completed_settlements = [];
  completed_entries = [];
  dispute_counted = [];
}

-- From any stock, counters and aliases, with no sale begun. The stock may change between the messages,
-- by puts and orders.
pub data Reached (x : Texts) : Market → Type 0 where
  start :
      (b : State) (stock : Stock) (n : Counts)
      → Reached x (record { base = b; stock = stock; chain = no_sales; counts = n })
  restocked :
      {s : Market} (b : State) (stock : Stock) (n : Counts)
      → Reached x s
      → Reached x (record s { base = b; stock = stock; counts = n })
  after : {s t : Market} → Reached x s → Step x s t → Reached x t

Reached-Valid : {x : Texts} {s : Market} → Reached x s → Valid s
unfolding no_sales lookup
Reached-Valid (start b stock n) = record {
  links = record {
    accepts = λ a k e. ground arith;
    delivers = λ d k e. ground arith;
    completed = λ d k e. ground arith;
    buyers = λ d k e. ground arith;
  };
}
Reached-Valid (restocked b stock n r) = record { links = (Reached-Valid r).links }
Reached-Valid {x} (after {s} r (matched m h)) = apply_match-Valid x m s h (Reached-Valid r)
Reached-Valid {x} (after {s} r (settled m)) = record {
  links = apply_settle-Linked x m s (Reached-Valid r).links;
}

-- The chain of a sale is never broken: in every state that matches with new ids and settle messages
-- reach, whatever happens to the rest of the state in between, a deliver that is completed names a match
-- that is delivered, and it was completed by the buyer of that match.
pub Reached-completed :
    (x : Texts) (s : Market) (d b : ℕ)
    → Reached x s
    → lookup d s.chain.completed_entries ≡ some b
    → (k : ℕ) × (lookup d s.chain.deliver_to_match ≡ some k)
      × (contains k s.chain.delivered_orders ≡ true)
      × (lookup k s.chain.match_to_buyer ≡ some b)
Reached-completed x s d b r e =
    let l = (Reached-Valid r).links in
    elim (Option-cases (lookup d s.chain.deliver_to_match)) [
      | inl f ↦ absurd (ground (arith, l.completed d b e))
      | inr (k, f) ↦ (k, f, ground (arith, l.delivers d k f), ground (arith, l.buyers d b e))
    ]
