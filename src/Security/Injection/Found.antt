-- ===== src/Security/Injection/Found.antt =====
-- Texts in which the filter finds an injection, wherever it stands.
use mini_gateway.Common.{
  ℕ, ◌≡◌, Bool, true, false, List, [], ◌∷◌, ◌++◌, map, Option, none, some, All, Elem, any, inl, inr,
  codes, refl, arith,
}
use mini_gateway.Security.Injection.{
  Item, lit, boundary, Pattern, fold, is_word, word_before, word_after, match_items, match_from,
  injection_patterns, any_match, is_injection_detected, file_paths, literal,
}

module _ {A : Type 0} where
  any-Elem : (p : A → Bool) (xs : List A) (a : A) → Elem a xs → p a ≡ true → any p xs ≡ true
  any-Elem p [] a m h = elim m [ ]
  any-Elem p (x ∷ xs) a (inl e) h = rw (← e, h) refl
  any-Elem p (x ∷ xs) a (inr m) h = rw (any-Elem p xs a m h) (ground arith)

-- A text of folded runes, then the rest of the items.
match_items-lits :
    (cs : List ℕ) (last : ℕ) (items : List Item) (s : List ℕ)
    → All (λ c. fold c ≡ c) cs
    → fold last ≡ last
    → match_items (some last) items s ≡ true
    → (prev : Option ℕ)
    → match_items prev (map lit (cs ++ last ∷ []) ++ items) ((cs ++ last ∷ []) ++ s) ≡ true
unfolding match_items
match_items-lits [] last items s h l m prev = ground (arith, l, m)
match_items-lits (c ∷ cs) last items s h l m prev =
    ground (arith, h.0, match_items-lits cs last items s h.1 l m (some c))

-- The rune in front of what follows a text.
abbrev pub rune_before : Option ℕ → List ℕ → Option ℕ
rune_before prev [] = prev
rune_before prev (b ∷ before) = rune_before (some b) before

match_from-here :
    (pattern : Pattern) (items : List Item) (s : List ℕ) (prev : Option ℕ)
    → Elem items pattern
    → match_items prev items s ≡ true
    → match_from prev pattern s ≡ true
unfolding match_from
match_from-here pattern items [] prev m h =
    any-Elem (λ items. match_items prev items []) pattern items m h
match_from-here pattern items (x ∷ s) prev m h =
    rw (any-Elem (λ items. match_items prev items (x ∷ s)) pattern items m h) refl

match_from-behind :
    (pattern : Pattern) (items : List Item) (s before : List ℕ) (prev : Option ℕ)
    → Elem items pattern
    → match_items (rune_before prev before) items s ≡ true
    → match_from prev pattern (before ++ s) ≡ true
unfolding match_from
match_from-behind pattern items s [] prev m h = match_from-here pattern items s prev m h
match_from-behind pattern items s (b ∷ before) prev m h =
    rw (match_from-behind pattern items s before (some b) m h) (ground arith)

detected-behind :
    (patterns : List Pattern) (pattern : Pattern) (items : List Item) (s before : List ℕ)
    → Elem pattern patterns
    → Elem items pattern
    → match_items (rune_before none before) items s ≡ true
    → any_match patterns (before ++ s) ≡ true
unfolding any_match
detected-behind patterns pattern items s before mp mi h =
    any-Elem (λ p. match_from none p (before ++ s)) patterns pattern mp
      (match_from-behind pattern items s before none mi h)

-- A step up in a path is found behind and before any text.
pub is_injection_detected-traversal :
    (before after : List ℕ) → is_injection_detected (before ++ (codes "../" ++ after)) ≡ true
unfolding is_injection_detected match_items fold
is_injection_detected-traversal before after =
    detected-behind injection_patterns file_paths (literal "../") (codes "../" ++ after) before
      (inr (inr (inr (inr (inr (inl refl)))))) (inl refl) refl

match_items-word :
    (c : ℕ) (cs : List ℕ) (last : ℕ) (after : List ℕ) (prev : Option ℕ)
    → All (λ c. fold c ≡ c) (c ∷ cs)
    → fold last ≡ last
    → is_word c ≡ true
    → is_word last ≡ true
    → word_before prev ≡ false
    → word_after after ≡ false
    → match_items prev
        (boundary ∷ (map lit ((c ∷ cs) ++ last ∷ []) ++ boundary ∷ []))
        (((c ∷ cs) ++ last ∷ []) ++ after)
      ≡ true
unfolding match_items
match_items-word c cs last after prev h l wc wl before_word after_word =
    rw (before_word, wc)
      (match_items-lits (c ∷ cs) last (boundary ∷ []) after h l (rw (wl, after_word) refl) prev)

-- A keyword of one of the patterns, of two runes or more in lower case that begins and ends with a rune
-- of a word, is found wherever no rune of a word stands directly before or after it.
pub is_injection_detected-word :
    (pattern : Pattern) (c : ℕ) (cs : List ℕ) (last : ℕ)
    → Elem pattern injection_patterns
    → Elem (boundary ∷ (map lit ((c ∷ cs) ++ last ∷ []) ++ boundary ∷ [])) pattern
    → All (λ c. fold c ≡ c) (c ∷ cs)
    → fold last ≡ last
    → is_word c ≡ true
    → is_word last ≡ true
    → (before after : List ℕ) → word_before (rune_before none before) ≡ false
    → word_after after ≡ false
    → is_injection_detected (before ++ (((c ∷ cs) ++ last ∷ []) ++ after)) ≡ true
unfolding is_injection_detected
is_injection_detected-word pattern c cs last mp mi h l wc wl before after no_before no_after =
    detected-behind injection_patterns pattern
      (boundary ∷ (map lit ((c ∷ cs) ++ last ∷ []) ++ boundary ∷ []))
      (((c ∷ cs) ++ last ∷ []) ++ after) before mp mi
      (match_items-word c cs last after (rune_before none before) h l wc wl no_before no_after)
