-- ===== src/Nuraft/Wire.antt =====
-- Writers and readers of buffers, and how they compose: what a chain of puts writes, what a chain of
-- gets reads, and that a chain of gets throws on a buffer that ends too early.
use distributed_replicated_c.Prelude.{
  ℕ, ◌≤◌, ◌<◌, ◌≡◌, refl, ◌∙◌, ap, inl, inr, none, Option, List, [], ◌∷◌, ◌++◌, length, drop,
  length-append, length-drop, drop-drop, append_assoc, split_append, arith,
}
use distributed_replicated_c.Result.{Result, ok, throws, overflow_error, or_throw, ◌>>=◌}
use distributed_replicated_c.Nuraft.Buffer.{BufferApi, BufferLaws, Puts, Gets}

module _ {b : BufferApi} (laws : BufferLaws b) where
  open b use {Cursor}
  open laws use {passed, left}

  -- With room for `bytes`, `write` succeeds, writes exactly them and moves past them.
  pub record Writes (write : Cursor → Result Cursor) (bytes : List ℕ) : Type 0 where
    pub at :
        (c : Cursor)
        → length bytes ≤ length (left c)
        → (c' : Cursor) × (write c ≡ ok c')
          × (passed c' ≡ passed c ++ bytes)
          × (left c' ≡ drop (length bytes) (left c))

  -- In front of `bytes`, `read` returns `v` and moves past them.
  pub record Reads {ℓ} {V : Type ℓ} (read : Cursor → Result (V × Cursor)) (bytes : List ℕ) (v : V)
      : Type ℓ where
    pub at :
        (c : Cursor) (rest : List ℕ)
        → left c ≡ bytes ++ rest
        → (c' : Cursor) × (read c ≡ ok (v, c')) × (left c' ≡ rest)

  -- In front of a proper prefix of `bytes`, `read` throws.
  pub record Refuses {ℓ} {V : Type ℓ} (read : Cursor → Result (V × Cursor)) (bytes : List ℕ)
      : Type ℓ where
    pub at :
        (c : Cursor) (x : ℕ) (more : List ℕ)
        → left c ++ x ∷ more ≡ bytes
        → read c ≡ throws overflow_error

  pub Writes-bind :
      {f g : Cursor → Result Cursor} {xs ys : List ℕ}
      → Writes f xs
      → Writes g ys
      → Writes (λ c. f c >>= g) (xs ++ ys)
  Writes-bind {f} {g} {xs} {ys} wf wg = record {
    at = λ c room.
        let (c1, e1, p1, l1) = wf.at c (omega (arith, length-append xs ys)) in
        let (c2, e2, p2, l2) =
          wg.at c1 (rw l1 (omega (arith, length-append xs ys, length-drop (length xs) (left c)))) in
        (
          c2,
          rw e1 e2,
          p2 ∙ ap (λ t. t ++ ys) p1 ∙ append_assoc (passed c) xs ys,
          l2
              ∙ ap (drop (length ys)) l1
              ∙ drop-drop (length xs) (length ys) (left c)
              ∙ ap (λ t. drop t (left c)) (omega (arith, length-append xs ys)),
        );
  }

  pub Writes-put :
      {put : Cursor → Option Cursor} (bytes : List ℕ)
      → Puts b passed left put bytes
      → Writes (λ c. or_throw overflow_error (put c)) bytes
  Writes-put bytes h = record {
    at = λ c room. let (c', e, p, l) = h c room in (c', rw e refl, p, l);
  }

  pub Reads-bind {ℓ κ} :
      {V : Type ℓ} {W : Type κ} {f : Cursor → Result (V × Cursor)}
      (g : V × Cursor → Result (W × Cursor)) {xs ys : List ℕ} {v : V} {w : W}
      → Reads f xs v
      → Reads (λ c. g (v, c)) ys w
      → Reads (λ c. f c >>= g) (xs ++ ys) w
  Reads-bind g {xs = xs} {ys = ys} rf rg = record {
    at = λ c rest e.
        let (c1, e1, l1) = rf.at c (ys ++ rest) (e ∙ append_assoc xs ys rest) in
        let (c2, e2, l2) = rg.at c1 rest l1 in (c2, rw e1 e2, l2);
  }

  pub Reads-get :
      {V : Type 0} {get : Cursor → Option (V × Cursor)} (bytes : List ℕ) {v : V}
      → Gets b left get bytes v
      → Reads (λ c. or_throw overflow_error (get c)) bytes v
  Reads-get bytes h = record { at = λ c rest e. let (c', p, l) = h c rest e in (c', rw p refl, l) }

  -- The last step returns what the steps before it have read.
  pub Reads-return {ℓ} : {V : Type ℓ} (v : V) → Reads (λ c. ok (v, c)) [] v
  Reads-return v = record { at = λ c rest e. (c, refl, e) }

  pub Refuses-bind {ℓ κ} :
      {V : Type ℓ} {W : Type κ} {f : Cursor → Result (V × Cursor)}
      (g : V × Cursor → Result (W × Cursor)) {xs ys : List ℕ} {v : V}
      → Reads f xs v
      → Refuses f xs
      → Refuses (λ c. g (v, c)) ys
      → Refuses (λ c. f c >>= g) (xs ++ ys)
  Refuses-bind g {xs = xs} {ys = ys} rf tf tg = record {
    at = λ c x more e. elim (split_append (left c) (x ∷ more) xs ys e) [
      | inl (z, zs, p) ↦ rw (tf.at c z zs p) refl
      | inr (zs, p, q) ↦
          let (c1, e1, l1) = rf.at c zs p in
          rw e1 (tg.at c1 x more (ap (λ t. t ++ x ∷ more) l1 ∙ q))
    ];
  }

  -- A get that throws when fewer than `length bytes` bytes are left.
  pub Refuses-get :
      {V : Type 0} {get : Cursor → Option (V × Cursor)} (bytes : List ℕ)
      → ((c : Cursor) → length (left c) < length bytes → get c ≡ none)
      → Refuses (λ c. or_throw overflow_error (get c)) bytes
  Refuses-get bytes h = record {
    at =
        λ c x more e. rw (h c (omega (arith, ap length e, length-append (left c) (x ∷ more)))) refl;
  }

  -- Nothing is a proper prefix of the empty list.
  pub Refuses-nil {ℓ} : {V : Type ℓ} (read : Cursor → Result (V × Cursor)) → Refuses read []
  Refuses-nil read = record {
    at = λ c x more e. absurd (omega (arith, ap length e, length-append (left c) (x ∷ more)));
  }

  -- A step that only rearranges what was read.
  pub Reads-map {ℓ κ} :
      {V : Type ℓ} {W : Type κ} {f : Cursor → Result (V × Cursor)} (h : V → W) {xs : List ℕ} {v : V}
      → Reads f xs v
      → Reads (λ c. f c >>= λ p. ok (h p.0, p.1)) xs (h v)
  Reads-map h rf = record {
    at = λ c rest e. let (c1, e1, l1) = rf.at c rest e in (c1, rw e1 refl, l1);
  }

  pub Refuses-map {ℓ κ} :
      {V : Type ℓ} {W : Type κ} {f : Cursor → Result (V × Cursor)} (h : V → W) {xs : List ℕ}
      → Refuses f xs
      → Refuses (λ c. f c >>= λ p. ok (h p.0, p.1)) xs
  Refuses-map h tf = record { at = λ c x more e. rw (tf.at c x more e) refl }
