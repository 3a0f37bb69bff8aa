-- ===== src/ReadPolicy/Turns.antt =====
-- The queue of the read policy is the list of the servers, turned by some places.
use distributed_replicated_c.Prelude.{
  ◌≡◌, ◌≢◌, refl, sym, ap, ◌∙◌, ℤ, List, [], ◌∷◌, ◌++◌, map, append-nil, append_assoc,
}

-- The queue is the list of the servers, turned by some places.
pub record IsRotation (ids policy : List ℤ) : Type 0 where
  pub passed : List ℤ
  pub left : List ℤ
  pub all : ids ≡ passed ++ left
  pub queue : policy ≡ left ++ passed

pub cons_not_nil : {x : ℤ} {l : List ℤ} → ◌≢◌ {A = List ℤ} (x ∷ l) []
cons_not_nil h = cc

pub nil_not_middle : (x : ℤ) (before after : List ℤ) → ◌≢◌ {A = List ℤ} [] (before ++ x ∷ after)
nil_not_middle x [] after h = cc
nil_not_middle x (y ∷ before) after h = cc

-- The server at the front of the queue is one of the list.
pub listed :
    (ids : List ℤ) (id : ℤ) (rest policy : List ℤ)
    → policy ≡ id ∷ rest
    → IsRotation ids policy
    → (before : List ℤ) × (after : List ℤ) × (ids ≡ before ++ id ∷ after)
listed ids id rest policy e r = by_left r.left r.passed r.all (sym e ∙ r.queue)
  where
    by_left :
        (left passed : List ℤ)
        → ids ≡ passed ++ left
        → id ∷ rest ≡ left ++ passed
        → (before : List ℤ) × (after : List ℤ) × (ids ≡ before ++ id ∷ after)
    by_left (x ∷ left) passed a q =
        let h : x ≡ id = cc in (passed, left, a ∙ ap (λ z. passed ++ z ∷ left) h)
    by_left [] [] a q = absurd (cons_not_nil q)
    by_left [] (x ∷ passed) a q =
        let h : x ≡ id = cc in ([], passed ++ [], a ∙ ap (λ z. z ∷ (passed ++ [])) h)

pub no_server_left :
    {A : Type 0} (clients : List (ℤ × A)) (policy : List ℤ)
    → policy ≡ []
    → IsRotation (map (λ entry. entry.0) clients) policy
    → clients ≡ []
no_server_left [] policy e r = refl
no_server_left {A} ((j, d) ∷ clients) policy e r =
    absurd (by_left r.left r.passed r.all (sym e ∙ r.queue))
  where
    by_left :
        (left passed : List ℤ)
        → map (λ (entry : ℤ × A). entry.0) ((j, d) ∷ clients) ≡ passed ++ left
        → [] ≡ left ++ passed
        → ⊥
    by_left [] [] a q = cons_not_nil a
    by_left [] (x ∷ passed) a q = cons_not_nil (sym q)
    by_left (x ∷ left) passed a q = cons_not_nil (sym q)

-- The next server goes to the back.
pub turn :
    (ids : List ℤ) (id : ℤ) (rest policy : List ℤ)
    → policy ≡ id ∷ rest
    → IsRotation ids policy
    → IsRotation ids (rest ++ id ∷ [])
turn ids id rest policy e r = by_left r.left r.passed r.all (sym e ∙ r.queue)
  where
    by_left :
        (left passed : List ℤ)
        → ids ≡ passed ++ left
        → id ∷ rest ≡ left ++ passed
        → IsRotation ids (rest ++ id ∷ [])
    by_left (x ∷ left) passed a q = record {
      passed = passed ++ x ∷ [];
      left = left;
      all = a ∙ sym (append_assoc passed (x ∷ []) left);
      queue =
          let h : id ≡ x = cc in
          let k : rest ≡ left ++ passed = cc in
          ap (λ l. l ++ id ∷ []) k
          ∙ append_assoc left passed (id ∷ [])
          ∙ ap (λ z. left ++ (passed ++ z ∷ [])) h;
    }
    by_left [] [] a q = absurd (cons_not_nil q)
    by_left [] (x ∷ passed) a q = record {
      passed = x ∷ [];
      left = passed;
      all = a ∙ ap (λ l. x ∷ l) (append-nil passed);
      queue =
          let h : id ≡ x = cc in
          let k : rest ≡ passed = cc in ap (λ l. l ++ id ∷ []) k ∙ ap (λ z. passed ++ z ∷ []) h;
    }
