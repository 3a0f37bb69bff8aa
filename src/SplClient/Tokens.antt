-- ===== src/SplClient/Tokens.antt =====
-- The words that `tokenize` finds.
use distributed_replicated_c.Prelude.{
  ℕ, ◌≡◌, ◌≢◌, refl, sym, ap, ◌∙◌, List, [], ◌∷◌, ◌++◌, All, append_assoc, append-nil, eqb_refl,
  eqb_false,
}
use distributed_replicated_c.SplClient.{push_token, tokenize_from, tokenize}

-- A word: not empty, and without the separator.
abbrev pub IsWord : ℕ → List ℕ → Type 0
IsWord c [] = ⊥
IsWord c (x ∷ word) = All (λ y. y ≢ c) (x ∷ word)

-- Words with one separator behind each.
abbrev pub separated : ℕ → List (List ℕ) → List ℕ
separated c [] = []
separated c (word ∷ words) = word ++ c ∷ separated c words

tokenize_word :
    (c : ℕ) (token word str : List ℕ)
    → All (λ y. y ≢ c) word
    → tokenize_from c token (word ++ str) ≡ tokenize_from c (token ++ word) str
unfolding tokenize_from
tokenize_word c token [] str h = ap (λ t. tokenize_from c t str) (sym (append-nil token))
tokenize_word c token (x ∷ word) str h = rw (eqb_false x c h.0) (
    tokenize_word c (token ++ x ∷ []) word str h.1
    ∙ ap (λ t. tokenize_from c t str) (append_assoc token (x ∷ []) word))

tokenize_separator :
    (c : ℕ) (token str : List ℕ)
    → tokenize_from c token (c ∷ str) ≡ push_token token (tokenize_from c [] str)
unfolding tokenize_from
tokenize_separator c token str = rw (eqb_refl c) refl

push-IsWord :
    (c : ℕ) (word : List ℕ) (tokens : List (List ℕ))
    → IsWord c word
    → push_token word tokens ≡ word ∷ tokens
unfolding push_token
push-IsWord c [] tokens h = absurd h
push-IsWord c (x ∷ word) tokens h = refl

All-IsWord : (c : ℕ) (word : List ℕ) → IsWord c word → All (λ y. y ≢ c) word
All-IsWord c [] h = tt
All-IsWord c (x ∷ word) h = h

-- A line that consists of words, each with one separator behind it, is cut into exactly these words,
-- in their order.
pub tokenize-separated :
    (c : ℕ) (words : List (List ℕ)) → All (IsWord c) words → tokenize (separated c words) c ≡ words
unfolding tokenize
tokenize-separated c [] h = unfold tokenize_from push_token in refl
tokenize-separated c (word ∷ words) h =
    tokenize_word c [] word (c ∷ separated c words) (All-IsWord c word h.0)
    ∙ tokenize_separator c word (separated c words)
    ∙ push-IsWord c word _ h.0
    ∙ ap (λ t. word ∷ t) (tokenize-separated c words h.1)
