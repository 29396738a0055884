-- ===== src/Shell/Tokens.antt =====
-- The tokens of `strtok`.
use ecnu_2020_autumn_linux_l.Base.{
  ℕ, ◌≡◌, ◌≢◌, refl, true, false, List, [], ◌∷◌, ◌++◌, ◌==◌, if◌then◌else◌, All, append-nil,
  append_assoc, Bool-cases, inl, inr, ==_self, ◌∙◌, ap, sym,
}
use ecnu_2020_autumn_linux_l.Shell.{Word, tokens_from, tokens, flush}

-- The bytes of a text that are not the delimiter.
pub without : ℕ → List ℕ → List ℕ
without c [] = []
without c (x ∷ xs) = if x == c then without c xs else x ∷ without c xs

pub concat : List Word → List ℕ
concat [] = []
concat (w ∷ ws) = w ++ concat ws

abbrev pub IsFree : ℕ → List ℕ → Type 0
IsFree c = All (λ x. (x == c) ≡ false)

-- A token is not empty and holds no delimiter.
abbrev pub IsToken : ℕ → Word → Type 0
IsToken c w = (w ≢ []) × IsFree c w

IsFree-snoc : (c : ℕ) (w : List ℕ) (x : ℕ) → IsFree c w → (x == c) ≡ false → IsFree c (w ++ x ∷ [])
IsFree-snoc c [] x h e = (e, tt)
IsFree-snoc c (y ∷ ys) x h e = (h.0, IsFree-snoc c ys x h.1 e)

tokens_from_of_delimiter :
    (c : ℕ) (w : Word) (x : ℕ) (xs : List ℕ)
    → (x == c) ≡ true
    → tokens_from c w (x ∷ xs) ≡ flush w (tokens_from c [] xs)
unfolding tokens_from
tokens_from_of_delimiter c w x xs e = rw (e, tokens_from)

tokens_from_of_byte :
    (c : ℕ) (w : Word) (x : ℕ) (xs : List ℕ)
    → (x == c) ≡ false
    → tokens_from c w (x ∷ xs) ≡ tokens_from c (w ++ x ∷ []) xs
unfolding tokens_from
tokens_from_of_byte c w x xs e = rw (e, tokens_from)

flush-All :
    (c : ℕ) (w : Word) (ws : List Word)
    → IsFree c w
    → All (IsToken c) ws
    → All (IsToken c) (flush w ws)
unfolding flush
flush-All c [] ws h a = a
flush-All c (x ∷ xs) ws h a = (((λ e. cc), h), a)

concat-flush : (w : Word) (ws : List Word) → concat (flush w ws) ≡ w ++ concat ws
unfolding flush concat
concat-flush [] ws = refl
concat-flush (x ∷ xs) ws = refl

tokens_from-IsToken :
    (c : ℕ) (w : Word) (s : List ℕ) → IsFree c w → All (IsToken c) (tokens_from c w s)
unfolding tokens_from
tokens_from-IsToken c w [] h = flush-All c w [] h tt
tokens_from-IsToken c w (x ∷ xs) h = elim (Bool-cases (x == c)) [
  | inl e ↦
      rw (tokens_from_of_delimiter c w x xs e) (flush-All c w _ h (tokens_from-IsToken c [] xs tt))
  | inr e ↦
      rw (tokens_from_of_byte c w x xs e)
        (tokens_from-IsToken c (w ++ x ∷ []) xs (IsFree-snoc c w x h e))
]

concat-tokens_from : (c : ℕ) (w : Word) (s : List ℕ) → concat (tokens_from c w s) ≡ w ++ without c s
unfolding tokens_from without concat
concat-tokens_from c w [] = concat-flush w []
concat-tokens_from c w (x ∷ xs) = elim (Bool-cases (x == c)) [
  | inl e ↦
      rw (tokens_from_of_delimiter c w x xs e, e)
        (concat-flush w _ ∙ ap (λ zs. w ++ zs) (concat-tokens_from c [] xs))
  | inr e ↦
      rw (tokens_from_of_byte c w x xs e, e)
        (concat-tokens_from c (w ++ x ∷ []) xs ∙ append_assoc w (x ∷ []) (without c xs))
]

-- No token is empty or holds the delimiter, and the tokens are, in order, all the bytes of the text
-- that are not the delimiter.
pub tokens_lem :
    (c : ℕ) (s : List ℕ) → All (IsToken c) (tokens c s) × (concat (tokens c s) ≡ without c s)
tokens_lem c s = (tokens_from-IsToken c [] s tt, concat-tokens_from c [] s)

-- The words with one delimiter between them.
unfoldable pub join : ℕ → List Word → List ℕ
join c [] = []
join c (w ∷ []) = w
join c (w ∷ v ∷ vs) = w ++ c ∷ join c (v ∷ vs)

-- Behind the bytes `w` the tokeniser collects a word without delimiter.
tokens_from-append :
    (c : ℕ) (w v s : List ℕ) → IsFree c v → tokens_from c w (v ++ s) ≡ tokens_from c (w ++ v) s
tokens_from-append c w [] s h = rw append-nil
tokens_from-append c w (x ∷ xs) s h =
    tokens_from_of_byte c w x (xs ++ s) h.0
    ∙ tokens_from-append c (w ++ x ∷ []) xs s h.1
    ∙ ap (λ v. tokens_from c v s) (append_assoc w (x ∷ []) xs)

flush-token : (w : Word) (ws : List Word) → w ≢ [] → flush w ws ≡ w ∷ ws
unfolding flush
flush-token [] ws h = absurd (h refl)
flush-token (x ∷ xs) ws h = refl

tokens_from_end : (c : ℕ) (w : Word) → tokens_from c w [] ≡ flush w []
unfolding tokens_from
tokens_from_end c w = refl

-- Words that are tokens come back from the text that joins them by the delimiter.
pub tokens-join : (c : ℕ) (ws : List Word) → All (IsToken c) ws → tokens c (join c ws) ≡ ws
unfolding join flush
tokens-join c [] h = tokens_from_end c []
tokens-join c (w ∷ []) h =
    ap (λ s. tokens_from c [] s) (sym (append-nil w))
    ∙ tokens_from-append c [] w [] h.0.1
    ∙ tokens_from_end c w
    ∙ flush-token w [] h.0.0
tokens-join c (w ∷ v ∷ vs) h =
    tokens_from-append c [] w (c ∷ join c (v ∷ vs)) h.0.1
    ∙ tokens_from_of_delimiter c w c (join c (v ∷ vs)) (==_self c)
    ∙ flush-token w _ h.0.0
    ∙ ap (λ ws. w ∷ ws) (tokens-join c (v ∷ vs) h.1)
