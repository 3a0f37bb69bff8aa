-- ===== src/OrdMap.antt =====
-- std::map with unsigned 64-bit keys, as the program uses it: the entries in increasing order of
-- their keys.
use distributed_replicated_c.Prelude.{
  ℕ, zero, suc, ◌+◌, ◌-◌, ◌≤◌, ◌<◌, ◌≡◌, refl, ap, ◌∙◌, ltb, ◌==◌, if◌then◌else◌, Option, none,
  some, List, [], ◌∷◌, ◌++◌, length, take, get_elem?, arith, ltb-true, ltb-false, eqb_refl,
  eqb_false,
}

abbrev pub OrdMap {ℓ} : Type ℓ → Type ℓ
OrdMap V = List (ℕ × V)

module _ {ℓ} {V : Type ℓ} where
  unfoldable pub find : ℕ → OrdMap V → Option V
  find k [] = none
  find k ((j, v) ∷ m) = if j == k then some v else find k m

  -- m[k] = v
  unfoldable pub insert : ℕ → V → OrdMap V → OrdMap V
  insert k v [] = (k, v) ∷ []
  insert k v ((j, w) ∷ m) =
      if ltb k j then (k, v) ∷ (j, w) ∷ m else if j == k then (k, v) ∷ m else (j, w) ∷ insert k v m

  -- m.erase(k)
  unfoldable pub erase : ℕ → OrdMap V → OrdMap V
  erase k [] = []
  erase k ((j, w) ∷ m) = if j == k then m else (j, w) ∷ erase k m

  -- The entries in front of lower_bound(k): what is left when it and all behind it are erased.
  unfoldable pub erase_from : ℕ → OrdMap V → OrdMap V
  erase_from k [] = []
  erase_from k ((j, w) ∷ m) = if ltb j k then (j, w) ∷ erase_from k m else []

  -- The key of upper_bound(k).
  unfoldable pub upper_bound : ℕ → OrdMap V → Option ℕ
  upper_bound k [] = none
  upper_bound k ((j, w) ∷ m) = if ltb k j then some j else upper_bound k m

  -- The map with the entries of a list at consecutive keys.
  abbrev pub number_from : ℕ → List V → OrdMap V
  number_from i [] = []
  number_from i (v ∷ vs) = (i, v) ∷ number_from (suc i) vs

  pub length-number_from : (i : ℕ) (vs : List V) → length (number_from i vs) ≡ length vs
  length-number_from i [] = refl
  length-number_from i (v ∷ vs) = ap suc (length-number_from (suc i) vs)

  find_offset : (i d : ℕ) (vs : List V) → find (i + d) (number_from i vs) ≡ get_elem? vs d
  unfolding find
  find_offset i d [] = refl
  find_offset i zero (v ∷ vs) = rw (let e : i + zero ≡ i = omega arith in e) (rw (eqb_refl i))
  find_offset i (suc d) (v ∷ vs) =
      rw (eqb_false i (i + suc d) (omega arith))
        (ap (λ (k : ℕ). find k (number_from (suc i) vs)) (omega arith) ∙ find_offset (suc i) d vs)

  pub find-number_from :
      (i k : ℕ) (vs : List V) → i ≤ k → find k (number_from i vs) ≡ get_elem? vs (k - i)
  find-number_from i k vs h =
      ap (λ (t : ℕ). find t (number_from i vs)) (omega arith) ∙ find_offset i (k - i) vs

  pub find_below : (i k : ℕ) (vs : List V) → k < i → find k (number_from i vs) ≡ none
  unfolding find
  find_below i k [] h = refl
  find_below i k (v ∷ vs) h =
      rw (eqb_false i k (omega arith)) (find_below (suc i) k vs (omega arith))

  -- A write at the next key goes to the end.
  pub insert_next :
      (i : ℕ) (v : V) (vs : List V)
      → insert (i + length vs) v (number_from i vs) ≡ number_from i (vs ++ v ∷ [])
  unfolding insert
  insert_next i v [] = ap (λ (k : ℕ). (k, v) ∷ []) (omega arith)
  insert_next i v (w ∷ vs) =
      rw
        (
          ltb-false (i + suc (length vs)) i (omega arith),
          eqb_false i (i + suc (length vs)) (omega arith),
        )
        (ap (λ m. (i, w) ∷ m)
          (ap (λ (k : ℕ). insert k v (number_from (suc i) vs)) (omega arith)
            ∙ insert_next (suc i) v vs))

  erase_from_offset :
      (i d : ℕ) (vs : List V) → erase_from (i + d) (number_from i vs) ≡ number_from i (take d vs)
  unfolding erase_from
  erase_from_offset i zero [] = refl
  erase_from_offset i (suc d) [] = refl
  erase_from_offset i zero (v ∷ vs) = rw (ltb-false i (i + zero) (omega arith))
  erase_from_offset i (suc d) (v ∷ vs) = rw (ltb-true i (i + suc d) (omega arith)) (
      ap (λ m. (i, v) ∷ m)
        (ap (λ (k : ℕ). erase_from k (number_from (suc i) vs)) (omega arith)
          ∙ erase_from_offset (suc i) d vs))

  pub erase_from-number_from :
      (i k : ℕ) (vs : List V)
      → i ≤ k
      → erase_from k (number_from i vs) ≡ number_from i (take (k - i) vs)
  erase_from-number_from i k vs h =
      ap (λ (t : ℕ). erase_from t (number_from i vs)) (omega arith) ∙ erase_from_offset i (k - i) vs

  pub erase_first :
      (i : ℕ) (v : V) (vs : List V) → erase i (number_from i (v ∷ vs)) ≡ number_from (suc i) vs
  unfolding erase
  erase_first i v vs = rw (eqb_refl i)
