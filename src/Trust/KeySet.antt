-- ===== src/Trust/KeySet.antt =====
-- KeySet of trust.go: the admitted keys, each in its normal form. The lock is not modelled.
use dontguess.Base.{
  ℕ, ◌≡◌, Bool, false, not, ◌||◌, ◌&&◌, ◌==◌, List, [], ◌∷◌, if◌then◌else◌, contains, arith,
}
use dontguess.Trust.Types.{Keys}

-- Add; an empty key is ignored.
unfoldable pub add : Keys → ℕ → List ℕ → List ℕ
unfolding contains
add c k s = let n = c.normal k in if n == 0 then s else (if contains n s then s else n ∷ s)

-- The built-in delete.
unfoldable pub without : ℕ → List ℕ → List ℕ
without n [] = []
without n (j ∷ s) = let rest = without n s in if n == j then rest else j ∷ rest

-- Remove
unfoldable pub remove : Keys → ℕ → List ℕ → List ℕ
unfolding without
remove c k s = let n = c.normal k in if n == 0 then s else without n s

-- Allowed
unfoldable pub allowed : Keys → ℕ → List ℕ → Bool
unfolding contains
allowed c k s = contains (c.normal k) s

-- NewKeySet adds key after key.
unfoldable pub add_all : Keys → List ℕ → List ℕ → List ℕ
unfolding add
add_all c [] s = s
add_all c (k ∷ keys) s = add_all c keys (add c k s)

-- ReplaceAll: the new roster alone counts.
unfoldable pub replace_all : Keys → List ℕ → List ℕ → List ℕ
unfolding add_all
replace_all c keys s = add_all c keys []

contains-without :
    (n j : ℕ) (s : List ℕ) → contains j (without n s) ≡ (not (n == j) && contains j s)
unfolding without contains
contains-without n j [] = ground arith
contains-without n j (i ∷ s) = ground (arith, contains-without n j s)

-- Add admits the key in every spelling with the same normal form, and no other key; an empty key
-- admits nobody.
pub allowed-add :
    (c : Keys) (k j : ℕ) (s : List ℕ)
    → allowed c j (add c k s) ≡ (allowed c j s || not (c.normal k == 0) && c.normal j == c.normal k)
unfolding allowed add contains
allowed-add c k j s = ground arith

-- Remove revokes the key in every spelling with the same normal form, and no other key; an empty
-- key revokes nobody.
allowed-remove :
    (c : Keys) (k j : ℕ) (s : List ℕ)
    → allowed c j (remove c k s)
      ≡ (allowed c j s && (c.normal k == 0 || not (c.normal k == c.normal j)))
unfolding allowed remove
allowed-remove c k j s = ground (arith, contains-without (c.normal k) (c.normal j) s)

-- Some key of a roster has the normal form of j, which is not empty.
abbrev pub lists : Keys → ℕ → List ℕ → Bool
lists c j [] = false
lists c j (k ∷ keys) = not (c.normal k == 0) && c.normal j == c.normal k || lists c j keys

allowed-add_all :
    (c : Keys) (j : ℕ) (keys s : List ℕ)
    → allowed c j (add_all c keys s) ≡ (allowed c j s || lists c j keys)
unfolding add_all
allowed-add_all c j [] s = ground arith
allowed-add_all c j (k ∷ keys) s =
    ground (arith, allowed-add_all c j keys (add c k s), allowed-add c k j s)

-- After ReplaceAll, a key is admitted exactly when the new roster lists it in some spelling,
-- whoever was admitted before.
allowed-replace_all :
    (c : Keys) (j : ℕ) (keys s : List ℕ) → allowed c j (replace_all c keys s) ≡ lists c j keys
unfolding replace_all allowed contains
allowed-replace_all c j keys s = ground (arith, allowed-add_all c j keys [])
