-- ===== src/Exchange/Smuggling.antt =====
-- One message, one operation: a second operation tag never selects what is executed.
use mathlib.Core.Logic.{◌↔◌}
use mathlib.Core.Path.{subst}
use dontguess.Base.{
  ◌≡◌, refl, sym, ◌∙◌, ◌≢◌, Option-cases, ◌⊎◌, inl, inr, true, false, none, some, List, [], ◌∷◌,
  arith, Bool-cases,
}
use dontguess.Proto.{Tag, ScripOp}
use dontguess.Exchange.Op.{is_exchange_op_tag, clashes, scan_ops, exchange_op}
use dontguess.Scrip.Ledger.{scrip_op}

-- Every operation tag of a list is t.
abbrev pub OnlyOp : Tag → List Tag → Type 0
OnlyOp t [] = Unit
OnlyOp t (u ∷ tags) = (is_exchange_op_tag u ≡ true → u ≡ t) × OnlyOp t tags

-- Some tag of a list is t.
abbrev pub Names : Tag → List Tag → Type 0
Names t [] = ⊥
Names t (u ∷ tags) = (u ≡ t) ⊎ Names t tags

clashes-eq_false : (t v : Tag) → clashes (some t) v ≡ false → v ≡ t
clashes-eq_false t v h = ground arith

clashes_self : (t v : Tag) → v ≡ t → clashes (some t) v ≡ false
clashes_self t v e = ground arith

scan_ops-eq_some :
    (t u : Tag) (tags : List Tag)
    → is_exchange_op_tag t ≡ true
    → scan_ops (some t) tags ≡ some u
    → (u ≡ t) × OnlyOp t tags
unfolding scan_ops
scan_ops-eq_some t u [] c h = (ground arith, tt)
scan_ops-eq_some t u (v ∷ tags) c h = elim (Bool-cases (is_exchange_op_tag v)) [
  | inl op ↦ elim (Bool-cases (clashes (some t) v)) [
    | inl bad ↦ ground arith
    | inr fine ↦
        let same = clashes-eq_false t v fine in
        ground (arith, scan_ops-eq_some v u tags op, rw same at (scan_ops-eq_some v u tags op))
  ]
  | inr plain ↦ ground (arith, scan_ops-eq_some t u tags c)
]

scan_ops-OnlyOp : (t : Tag) (tags : List Tag) → OnlyOp t tags → scan_ops (some t) tags ≡ some t
unfolding scan_ops
scan_ops-OnlyOp t [] o = refl
scan_ops-OnlyOp t (v ∷ tags) o = elim (Bool-cases (is_exchange_op_tag v)) [
  | inl op ↦
      let same = o.0 op in
      ground (arith, op, same, clashes_self t v same, scan_ops-OnlyOp t tags o.1)
  | inr plain ↦ ground (arith, plain, scan_ops-OnlyOp t tags o.1)
]

scan_ops-none :
    (t : Tag) (tags : List Tag)
    → scan_ops none tags ≡ some t
    → (is_exchange_op_tag t ≡ true) × Names t tags × OnlyOp t tags
unfolding scan_ops
scan_ops-none t [] h = cc
scan_ops-none t (v ∷ tags) h = elim (Bool-cases (is_exchange_op_tag v)) [
  | inl op ↦
      let here : scan_ops (some v) tags ≡ some t = ground arith in
      let (same, only) = scan_ops-eq_some v t tags op here in
      (rw same op, inl (sym same), ((λ o. sym same), subst (λ w. OnlyOp w tags) (sym same) only))
  | inr plain ↦ ground (arith, scan_ops-none t tags)
]

Names-scan_ops :
    (t : Tag) (tags : List Tag)
    → is_exchange_op_tag t ≡ true
    → Names t tags
    → OnlyOp t tags
    → scan_ops none tags ≡ some t
unfolding scan_ops
Names-scan_ops t [] c n o = absurd n
Names-scan_ops t (v ∷ tags) c n o = elim (Bool-cases (is_exchange_op_tag v)) [
  | inl op ↦ let same = o.0 op in ground (arith, op, same, scan_ops-OnlyOp t tags o.1)
  | inr plain ↦ ground (arith, plain, Names-scan_ops t tags c)
]

-- A message performs the operation t exactly when t is an operation tag, the message carries it,
-- and every operation tag that the message carries is t.
pub exchange_op_iff :
    (t : Tag) (tags : List Tag)
    → (exchange_op tags ≡ some t) ↔ ((is_exchange_op_tag t ≡ true) × Names t tags × OnlyOp t tags)
unfolding exchange_op
exchange_op_iff t tags = (scan_ops-none t tags, λ (c, n, o). Names-scan_ops t tags c n o)

OnlyOp-Names :
    (t u : Tag) (tags : List Tag)
    → is_exchange_op_tag u ≡ true
    → OnlyOp t tags
    → Names u tags
    → u ≡ t
OnlyOp-Names t u [] c o n = absurd n
OnlyOp-Names t u (v ∷ tags) c o (inl e) = sym e ∙ o.0 (rw e c)
OnlyOp-Names t u (v ∷ tags) c o (inr n) = OnlyOp-Names t u tags c o.1 n

-- The ledger reads tags another way: a message that begins with a scrip tag and carries any other
-- operation besides performs nothing for the exchange, and the scrip operation for the ledger.
pub scrip_op_smuggled :
    (a : ScripOp) (u : Tag) (tags : List Tag)
    → is_exchange_op_tag u ≡ true
    → u ≢ Tag.scrip a
    → Names u tags
    → (exchange_op (Tag.scrip a ∷ tags) ≡ none) × (scrip_op (Tag.scrip a ∷ tags) ≡ some a)
unfolding scrip_op
scrip_op_smuggled a u tags c ne n = (
  elim (Option-cases (exchange_op (Tag.scrip a ∷ tags))) [
    | inl e ↦ e
    | inr (t, e) ↦
        let (op, names, only) = (exchange_op_iff t (Tag.scrip a ∷ tags)).0 e in
        absurd (ne (OnlyOp-Names t u tags c only.1 n ∙ sym (only.0 refl)))
  ],
  refl,
)
