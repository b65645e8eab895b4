-- ===== src/Settlement/Links.antt =====
-- The chain of a sale: what is completed was delivered, and what is delivered was matched.
use dontguess.Base.{
  ℕ, ◌≡◌, refl, true, false, ◌&&◌, ◌||◌, some, List, inl, inr, arith, ◌==◌, lookup, insert, get_or,
  lookup-insert, is_some, contains, Bool-cases, if-keeps,
}
use dontguess.Proto.{Message}
use dontguess.Settlement.Types.{Market, Texts, InventoryEntry, Chain, add_to}
use dontguess.Settlement.Fold.Stock.{antecedent, deny, accept_put, reject_put}
use dontguess.Settlement.Fold.Buyer.{
  match_of, selected_entry, entry_of, new_accept, accept_chain, reject_match, request_preview,
  new_preview, last_preview, preview_match, is_small, refund, new_dispute,
}
use dontguess.Settlement.Fold.Operator.{record_preview, deliver_match}
use dontguess.Settlement.Fold.Complete.{complete_match, sale_price_of, apply_settle}
use dontguess.Settlement.Repeat.Basics.{given-keeps}
use dontguess.Settlement.Preserved.{Keeps, apply_settle-keeps}

-- An accept names a match with a buyer; a deliver names one that is delivered too; a completion names
-- a deliver, and the buyer of the match of that deliver.
pub record Linked (c : Chain) : Type 0 where
  pub accepts :
      (a k : ℕ)
      → lookup a c.buyer_accept_to_match ≡ some k
      → is_some (lookup k c.match_to_buyer) ≡ true
  pub delivers :
      (d k : ℕ)
      → lookup d c.deliver_to_match ≡ some k
      → (contains k c.delivered_orders && is_some (lookup k c.match_to_buyer)) ≡ true
  pub completed :
      (d b : ℕ)
      → lookup d c.completed_entries ≡ some b
      → is_some (lookup d c.deliver_to_match) ≡ true
  pub buyers :
      (d b : ℕ)
      → lookup d c.completed_entries ≡ some b
      → lookup (get_or 0 (lookup d c.deliver_to_match)) c.match_to_buyer ≡ some b

-- Changes of other maps.
pub record SameLinks (c e : Chain) : Type 0 where
  pub accepted : e.buyer_accept_to_match ≡ c.buyer_accept_to_match
  pub delivered : e.deliver_to_match ≡ c.deliver_to_match
  pub orders : e.delivered_orders ≡ c.delivered_orders
  pub completed : e.completed_entries ≡ c.completed_entries
  pub buyer : e.match_to_buyer ≡ c.match_to_buyer

pub SameLinks-Linked : (c e : Chain) → SameLinks c e → Linked c → Linked e
SameLinks-Linked c e t l = record {
  accepts = λ a k h. ground (arith, t.accepted, t.buyer, l.accepts a k);
  delivers = λ d k h. ground (arith, t.delivered, t.orders, t.buyer, l.delivers d k);
  completed = λ d b h. ground (arith, t.completed, t.delivered, l.completed d b);
  buyers = λ d b h. ground (arith, t.completed, t.delivered, t.buyer, l.buyers d b);
}

contains-add_to : (j k : ℕ) (l : List ℕ) → contains j (add_to k l) ≡ (j == k || contains j l)
unfolding add_to contains
contains-add_to j k l = ground arith

record LinkedMarket (s : Market) : Type 0 where
  links : Linked s.chain

accept_chain-Linked :
    (msg k e b : ℕ) (c : Chain)
    → lookup k c.match_to_buyer ≡ some b
    → Linked c
    → Linked (accept_chain msg k e c)
unfolding accept_chain
accept_chain-Linked msg k e b c h l =
    let more = record c { buyer_accept_to_match = insert msg k c.buyer_accept_to_match } in
    let grown : Linked more = record {
      accepts =
          λ a j f. ground (arith, lookup-insert a msg k c.buyer_accept_to_match, l.accepts a j);
      delivers = l.delivers;
      completed = l.completed;
      buyers = l.buyers;
    } in
    elim (Bool-cases (e == 0)) [
      | inl f ↦ rw (f, accept_chain) grown
      | inr f ↦
          rw (f, accept_chain)
            (record {
              accepts = grown.accepts;
              delivers = l.delivers;
              completed = l.completed;
              buyers = l.buyers;
            })
    ]

new_accept-LinkedMarket :
    (m : Message) (a b : ℕ) (s : Market)
    → lookup (match_of a s.chain) s.chain.match_to_buyer ≡ some b
    → LinkedMarket s
    → LinkedMarket (new_accept m a s)
unfolding new_accept
new_accept-LinkedMarket m a b s h l = record {
  links =
      accept_chain-Linked m.id (match_of a s.chain)
        (selected_entry m.payload (match_of a s.chain) s.chain) b s.chain h l.links;
}

deliver_match-LinkedMarket :
    (m : Message) (a k : ℕ) (s : Market)
    → is_some (lookup m.id s.chain.deliver_to_match) ≡ false
    → get_or 0 (lookup a s.chain.buyer_accept_to_match) ≡ k
    → LinkedMarket s
    → LinkedMarket (deliver_match m k s)
unfolding deliver_match
deliver_match-LinkedMarket m a k s new e l = elim (Bool-cases (k == 0)) [
  | inl z ↦ rw (z, deliver_match) l
  | inr z ↦
      let found : lookup a s.chain.buyer_accept_to_match ≡ some k = ground arith in
      let bought = l.links.accepts a k found in
      rw (z, deliver_match)
        (record {
          links = record {
            accepts = l.links.accepts;
            delivers = λ d j h. ground (
              arith,
              lookup-insert d m.id k s.chain.deliver_to_match,
              l.links.delivers d j,
              contains-add_to j k s.chain.delivered_orders,
            );
            completed = λ d b h.
                ground
                  (arith, lookup-insert d m.id k s.chain.deliver_to_match, l.links.completed d b);
            buyers = λ d b h. ground (
              arith,
              lookup-insert d m.id k s.chain.deliver_to_match,
              l.links.buyers d b,
              l.links.completed d b,
            );
          };
        })
]

complete_match-LinkedMarket :
    (m : Message) (a k e : ℕ) (s : Market)
    → lookup k s.chain.match_to_buyer ≡ some m.sender
    → get_or 0 (lookup a s.chain.deliver_to_match) ≡ k
    → (k == 0) ≡ false
    → LinkedMarket s
    → LinkedMarket (complete_match m a k e s)
unfolding complete_match
complete_match-LinkedMarket m a k e s b named z l =
    given-keeps (λ u. LinkedMarket u) (sale_price_of m.payload) s _ l
      λ p _. record {
        links = record {
          accepts = l.links.accepts;
          delivers = l.links.delivers;
          completed = λ d j h.
              ground (
                arith,
                lookup-insert d a m.sender s.chain.completed_entries,
                l.links.completed d j,
              );
          buyers = λ d j h.
              ground
                (arith, lookup-insert d a m.sender s.chain.completed_entries, l.links.buyers d j);
        };
      }

-- A change that leaves the links alone.
relinked : (s t : Market) → SameLinks s.chain t.chain → LinkedMarket s → LinkedMarket t
relinked s t e l = record { links = SameLinks-Linked s.chain t.chain e l.links }

preview_match-LinkedMarket :
    (m : Message) (k : ℕ) (s : Market) → LinkedMarket s → LinkedMarket (preview_match m k s)
unfolding preview_match request_preview new_preview
preview_match-LinkedMarket m k s l =
    given-keeps (λ u. LinkedMarket u) (entry_of m.payload) s _ l
      λ e _.
        if-keeps (λ u. LinkedMarket u) (e == 0) s (request_preview m.id m.sender k e s) l
          (if-keeps (λ u. LinkedMarket u) (last_preview m.sender e s == k) s
            (new_preview m.id m.sender k e s) l
            (relinked s (new_preview m.id m.sender k e s)
              (record {
                accepted = refl;
                delivered = refl;
                orders = refl;
                completed = refl;
                buyer = refl;
              })
              l))

refund-SameLinks :
    (m : Message) (entry : ℕ) (e : InventoryEntry) (s : Market)
    → SameLinks s.chain (refund m entry e s).chain
unfolding refund
refund-SameLinks m entry e s = elim (Bool-cases (is_small e)) [
  | inr large ↦
      rw (large, refund)
        (record {
          accepted = refl;
          delivered = refl;
          orders = refl;
          completed = refl;
          buyer = refl;
        })
  | inl small ↦
      rw (small, refund)
        (record {
          accepted = refl;
          delivered = refl;
          orders = refl;
          completed = refl;
          buyer = refl;
        })
]

new_dispute-LinkedMarket :
    (m : Message) (k : ℕ) (s : Market) → LinkedMarket s → LinkedMarket (new_dispute m k s)
unfolding new_dispute
new_dispute-LinkedMarket m k s l =
    given-keeps (λ u. LinkedMarket u) (entry_of m.payload) s _ l
      λ _ _.
        let entry = get_or 0 (lookup k s.chain.match_to_entry) in
        if-keeps (λ u. LinkedMarket u) (entry == 0) s _ l
          (given-keeps (λ u. LinkedMarket u) (lookup entry s.stock.inventory) s _ l
            λ e _. relinked s (refund m entry e s) (refund-SameLinks m entry e s) l)

LinkedMarket-Keeps : (x : Texts) (m : Message) → Keeps (λ s. LinkedMarket s) x m
unfolding deny accept_put reject_put record_preview reject_match
LinkedMarket-Keeps x m = record {
  denied = λ r s l. record { links = l.links };
  put_accepted = λ s l.
      given-keeps (λ u. LinkedMarket u) (antecedent m) s _ l
        λ k _.
          given-keeps (λ u. LinkedMarket u) (lookup k s.stock.pending_puts) s _ l
            λ e _. record { links = l.links };
  put_rejected = λ s l.
      given-keeps (λ u. LinkedMarket u) (antecedent m) s _ l λ k _. record { links = l.links };
  preview_recorded = λ s l.
      given-keeps (λ u. LinkedMarket u) (antecedent m) s _ l
        λ k _.
          given-keeps (λ u. LinkedMarket u) (lookup k s.chain.preview_request_to_match) s _ l
            λ e _. record {
              links = record {
                accepts = l.links.accepts;
                delivers = l.links.delivers;
                completed = l.links.completed;
                buyers = l.links.buyers;
              };
            };
  match_delivered = λ a k s. deliver_match-LinkedMarket m a k s;
  match_accepted = λ a s. new_accept-LinkedMarket m a m.sender s;
  match_rejected = λ k s l. record {
    links = record {
      accepts = l.links.accepts;
      delivers = l.links.delivers;
      completed = l.links.completed;
      buyers = l.links.buyers;
    };
  };
  match_previewed = λ k s. preview_match-LinkedMarket m k s;
  match_disputed = λ k s. new_dispute-LinkedMarket m k s;
  match_completed = λ a k e s. complete_match-LinkedMarket m a k e s;
}

pub apply_settle-Linked :
    (x : Texts) (m : Message) (s : Market) → Linked s.chain → Linked (apply_settle x m s).chain
apply_settle-Linked x m s l =
    (apply_settle-keeps (λ u. LinkedMarket u) x m (LinkedMarket-Keeps x m) s
      (record { links = l })).links
