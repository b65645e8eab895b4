-- ===== src/Exchange/Redelivery.antt =====
-- A consume message that comes twice, and wire aliases that are registered twice (applyConsume of
-- state_core.go, RegisterWireAlias of state_wire_alias.go).
use dontguess.Base.{
  ℕ, ◌≡◌, refl, ap, true, false, none, some, inl, inr, lookup, contains, arith, Bool-cases,
  Option-cases, lookup-insert,
}
use dontguess.Proto.{Message}
use dontguess.Assign.Types.{State, Config, record_fold_denial, not_operator, resolve_alias}
use dontguess.Assign.Fold.{is_operator}
use dontguess.Exchange.Matches.{Matches, decode_consume, apply_consume, register_wire_alias, deny}

record_fold_denial_twice :
    (m : Message) (s : State)
    → record_fold_denial not_operator m (record_fold_denial not_operator m s)
      ≡ record_fold_denial not_operator m s
unfolding record_fold_denial contains
record_fold_denial_twice m s = ground arith

apply_consume_counted :
    (c : Config) (m : Message) (s : Matches)
    → is_operator c m ≡ true
    → contains m.id s.consume_counted ≡ true
    → apply_consume c m s ≡ s
unfolding apply_consume
apply_consume_counted c m s o d = rw (o, d) refl

apply_consume_denied :
    (c : Config) (m : Message) (s : Matches)
    → is_operator c m ≡ false
    → apply_consume c m s ≡ deny m s
unfolding apply_consume
apply_consume_denied c m s o = rw o refl

apply_consume_empty :
    (c : Config) (m : Message) (s : Matches)
    → is_operator c m ≡ true
    → decode_consume m.payload ≡ none
    → apply_consume c m s ≡ s
unfolding apply_consume
apply_consume_empty c m s o e = elim (Bool-cases (contains m.id s.consume_counted)) [
  | inl d ↦ rw (o, d) refl
  | inr d ↦ rw (o, d, e) refl
]

apply_consume-counts :
    (c : Config) (m : Message) (s : Matches) (entry : ℕ)
    → is_operator c m ≡ true
    → decode_consume m.payload ≡ some entry
    → contains m.id (apply_consume c m s).consume_counted ≡ true
unfolding apply_consume contains
apply_consume-counts c m s entry o e = rw (o, e) (ground arith)

-- A consume message that is folded a second time changes nothing, whoever sent it and whatever it
-- carries.
apply_consume_twice :
    (c : Config) (m : Message) (s : Matches)
    → apply_consume c m (apply_consume c m s) ≡ apply_consume c m s
apply_consume_twice c m s = elim (Bool-cases (is_operator c m)) [
  | inl o ↦ elim (Option-cases (decode_consume m.payload)) [
    | inl e ↦ ap (apply_consume c m) (apply_consume_empty c m s o e)
    | inr (entry, e) ↦
        apply_consume_counted c m (apply_consume c m s) o (apply_consume-counts c m s entry o e)
  ]
  | inr o ↦
      rw (apply_consume_denied c m (apply_consume c m s) o, apply_consume_denied c m s o)
        (ap (λ b. record s { base = b }) (record_fold_denial_twice m s.base))
]

-- A wire id that resolves to a store id keeps doing so, whatever is registered later.
register_wire_alias-resolve_alias :
    (wire store other target : ℕ) (s : State)
    → lookup other s.wire_to_store ≡ some target
    → resolve_alias other (register_wire_alias wire store s) ≡ target
unfolding register_wire_alias resolve_alias
register_wire_alias-resolve_alias wire store other target s h =
    ground (arith, lookup-insert other wire store s.wire_to_store)
