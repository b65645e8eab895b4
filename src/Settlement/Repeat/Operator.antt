-- ===== src/Settlement/Repeat/Operator.antt =====
-- The handlers of the operator, folded twice.
use dontguess.Base.{
  ◌≡◌, ◌⊎◌, refl, ap, ◌∙◌, true, none, some, inl, inr, arith, ◌==◌, lookup, insert, erase, get_or,
  lookup-insert_self, lookup-erase, is_some, if◌then◌else◌, Bool-cases, Option-cases,
}
use dontguess.Proto.{Message}
use dontguess.Assign.Types.{Config}
use dontguess.Assign.Fold.{is_operator}
use dontguess.Sequencer.Ingest.{remove_from}
use dontguess.Settlement.Types.{Market}
use dontguess.Settlement.Fold.Stock.{
  antecedent, operator_only, accept_put, reject_put, accept_terms, purges, apply_settle_put_accept,
  apply_settle_put_reject,
}
use dontguess.Settlement.Fold.Operator.{
  apply_settle_preview, apply_settle_deliver, record_preview, record_deliver, deliver_match,
  new_deliver,
}
use dontguess.Settlement.Repeat.Basics.{
  erase_twice, insert_twice, deny_twice, given-none, given-some, settles_at, once, once_twice,
}

-- A guard of the operator before a handler that is the same when it runs again.
operator_only_twice :
    (c : Config) (m : Message) (f : Market → Market) (s : Market)
    → f (f s) ≡ f s
    → operator_only c m (operator_only c m s (f s)) (f (operator_only c m s (f s)))
      ≡ operator_only c m s (f s)
unfolding operator_only
operator_only_twice c m f s h = elim (Bool-cases (is_operator c m)) [
  | inl allowed ↦ rw allowed h
  | inr denied ↦ rw denied (deny_twice _ m s)
]

accept_put_twice :
    (c : Config) (m : Message) (s : Market) → accept_put c m (accept_put c m s) ≡ accept_put c m s
unfolding accept_put
accept_put_twice c m s = elim (Option-cases (antecedent m)) [
  | inl e ↦
      let same : accept_put c m s ≡ s = given-none (antecedent m) s _ e in
      settles_at (accept_put c m) same same
  | inr (k, e) ↦ elim (Option-cases (lookup k s.stock.pending_puts)) [
    | inl f ↦
        let same : accept_put c m s ≡ s = given-some (antecedent m) k s _ e ∙ given-none _ s _ f in
        settles_at (accept_put c m) same same
    | inr (x, f) ↦
        let t = record s {
          stock = record s.stock {
            pending_puts = erase k s.stock.pending_puts;
            inventory = insert x.entry_id (accept_terms c m.payload x) s.stock.inventory;
          };
        } in
        let gone : lookup k (erase k s.stock.pending_puts) ≡ none =
          ground (arith, lookup-erase k k s.stock.pending_puts) in
        let moved : accept_put c m s ≡ t =
          given-some (antecedent m) k s _ e ∙ given-some _ x s _ f in
        let same : accept_put c m t ≡ t =
          given-some (antecedent m) k t _ e ∙ given-none _ t _ gone in
        settles_at (accept_put c m) moved same
  ]
]

reject_put_twice : (m : Message) (s : Market) → reject_put m (reject_put m s) ≡ reject_put m s
unfolding reject_put
reject_put_twice m s = elim (Option-cases (antecedent m)) [
  | inl e ↦
      let same : reject_put m s ≡ s = given-none (antecedent m) s _ e in
      settles_at (reject_put m) same same
  | inr (k, e) ↦
      let gone : lookup k (erase k s.stock.pending_puts) ≡ none =
        ground (arith, lookup-erase k k s.stock.pending_puts) in
      let t = record s {
        stock = record s.stock {
          pending_puts = erase k s.stock.pending_puts;
          content_hash_index = elim (lookup k s.stock.pending_puts) [
            | none ↦ s.stock.content_hash_index
            | some x ↦
                if purges m.payload
                then remove_from x.content_hash s.stock.content_hash_index
                else s.stock.content_hash_index
          ];
        };
      } in
      let moved : reject_put m s ≡ t = given-some (antecedent m) k s _ e in
      let same : reject_put m t ≡ t =
        given-some (antecedent m) k t _ e ∙ rw (gone, erase_twice k s.stock.pending_puts) refl in
      settles_at (reject_put m) moved same
]

record_preview_twice :
    (m : Message) (s : Market) → record_preview m (record_preview m s) ≡ record_preview m s
unfolding record_preview
record_preview_twice m s = elim (Option-cases (antecedent m)) [
  | inl e ↦
      let same : record_preview m s ≡ s = given-none (antecedent m) s _ e in
      settles_at (record_preview m) same same
  | inr (k, e) ↦ elim (Option-cases (lookup k s.chain.preview_request_to_match)) [
    | inl f ↦
        let same : record_preview m s ≡ s =
          given-some (antecedent m) k s _ e ∙ given-none _ s _ f in
        settles_at (record_preview m) same same
    | inr (x, f) ↦
        let t = record s {
          chain = record s.chain { preview_to_match = insert m.id x s.chain.preview_to_match };
        } in
        let moved : record_preview m s ≡ t =
          given-some (antecedent m) k s _ e ∙ given-some _ x s _ f in
        let same : record_preview m t ≡ t =
          given-some (antecedent m) k t _ e
          ∙ given-some _ x t _ f
          ∙ rw (insert_twice m.id x s.chain.preview_to_match) refl in
        settles_at (record_preview m) moved same
  ]
]

new_deliver-recorded :
    (m : Message) (s : Market)
    → (new_deliver m s ≡ s)
      ⊎ (is_some (lookup m.id (new_deliver m s).chain.deliver_to_match) ≡ true)
unfolding new_deliver deliver_match
new_deliver-recorded m s = elim (Option-cases (antecedent m)) [
  | inl e ↦ inl (given-none _ s _ e)
  | inr (k, e) ↦
      let matched = get_or 0 (lookup k s.chain.buyer_accept_to_match) in
      let found = lookup-insert_self m.id matched s.chain.deliver_to_match in
      elim (Bool-cases (matched == 0)) [
        | inl f ↦ inl (given-some _ k s _ e ∙ rw (f, deliver_match) refl)
        | inr f ↦
            let same : (new_deliver m s).chain.deliver_to_match
                ≡ insert m.id matched s.chain.deliver_to_match =
              ap (λ x. x.chain.deliver_to_match) (given-some _ k s _ e)
              ∙ rw (f, deliver_match) refl in
            inr (rw (same, found) refl)
      ]
]

record_deliver_twice :
    (m : Message) (s : Market) → record_deliver m (record_deliver m s) ≡ record_deliver m s
unfolding record_deliver once
record_deliver_twice m s =
    once_twice (λ x. is_some (lookup m.id x.chain.deliver_to_match)) (new_deliver m) s
      (new_deliver-recorded m s)

pub apply_settle_put_accept_twice :
    (c : Config) (m : Message) (s : Market)
    → apply_settle_put_accept c m (apply_settle_put_accept c m s) ≡ apply_settle_put_accept c m s
unfolding apply_settle_put_accept
apply_settle_put_accept_twice c m s =
    operator_only_twice c m (accept_put c m) s (accept_put_twice c m s)

pub apply_settle_put_reject_twice :
    (c : Config) (m : Message) (s : Market)
    → apply_settle_put_reject c m (apply_settle_put_reject c m s) ≡ apply_settle_put_reject c m s
unfolding apply_settle_put_reject
apply_settle_put_reject_twice c m s =
    operator_only_twice c m (reject_put m) s (reject_put_twice m s)

pub apply_settle_preview_twice :
    (c : Config) (m : Message) (s : Market)
    → apply_settle_preview c m (apply_settle_preview c m s) ≡ apply_settle_preview c m s
unfolding apply_settle_preview
apply_settle_preview_twice c m s =
    operator_only_twice c m (record_preview m) s (record_preview_twice m s)

pub apply_settle_deliver_twice :
    (c : Config) (m : Message) (s : Market)
    → apply_settle_deliver c m (apply_settle_deliver c m s) ≡ apply_settle_deliver c m s
unfolding apply_settle_deliver
apply_settle_deliver_twice c m s =
    operator_only_twice c m (record_deliver m) s (record_deliver_twice m s)
