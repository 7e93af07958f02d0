-- ===== src/Security/Injection/Patterns.antt =====
-- What the injection patterns match: the case of letters does not matter, and a step up in a path is
-- found wherever it stands.
use mathlib.Core.Option
use mini_gateway.Common.{
  ℕ, ◌-◌, ◌&&◌, ◌||◌, ◌≡◌, List, [], ◌∷◌, map, Option, none, some, any, leb, ◌==◌, if◌then◌else◌,
  refl, ap, sym, ◌∙◌, arith,
}
use mini_gateway.Security.Injection.{
  Item, lit, boundary, letters, maybe_space, Pattern, fold, is_letter, is_word, word_before,
  word_after, differ, match_items, match_from, injection_patterns, any_match, is_injection_detected,
}

-- The upper-case letter of an ASCII letter.
abbrev pub upper : ℕ → ℕ
upper x = if leb b'a' x && leb x b'z' then x - 32 else x

fold-upper : (x : ℕ) → fold (upper x) ≡ fold x
unfolding fold
fold-upper x = ground arith

is_word-upper : (x : ℕ) → is_word (upper x) ≡ is_word x
unfolding is_word
is_word-upper x = ground arith

space-upper : (x : ℕ) → (upper x == b' ') ≡ (x == b' ')
space-upper x = ground arith

word_before-upper : (prev : Option ℕ) → word_before (Option.map upper prev) ≡ word_before prev
unfolding word_before is_word
word_before-upper none = refl
word_before-upper (some x) = is_word-upper x

word_after-upper : (s : List ℕ) → word_after (map upper s) ≡ word_after s
unfolding word_after is_word
word_after-upper [] = refl
word_after-upper (x ∷ s) = is_word-upper x

match_items-upper :
    (prev : Option ℕ) (items : List Item) (s : List ℕ)
    → match_items (Option.map upper prev) items (map upper s) ≡ match_items prev items s
unfolding match_items
match_items-upper prev [] s = refl
match_items-upper prev (lit c ∷ items) [] = refl
match_items-upper prev (lit c ∷ items) (x ∷ s) =
    λ i. fold-upper x i == c && match_items-upper (some x) items s i
match_items-upper prev (boundary ∷ items) s = λ i.
    differ (word_before-upper prev i) (word_after-upper s i) && match_items-upper prev items s i
match_items-upper prev (letters ∷ items) [] = refl
match_items-upper prev (letters ∷ items) (x ∷ s) = λ i.
    is_letter (fold-upper x i)
    && (match_items-upper (some x) items s i || match_items-upper (some x) (letters ∷ items) s i)
match_items-upper prev (maybe_space ∷ items) [] = match_items-upper prev items []
match_items-upper prev (maybe_space ∷ items) (x ∷ s) = λ i.
    space-upper x i && match_items-upper (some x) items s i
    || match_items-upper prev items (x ∷ s) i

any-upper :
    (prev : Option ℕ) (pattern : Pattern) (s : List ℕ)
    → any (λ items. match_items (Option.map upper prev) items (map upper s)) pattern
      ≡ any (λ items. match_items prev items s) pattern
any-upper prev [] s = refl
any-upper prev (items ∷ pattern) s =
    λ i. match_items-upper prev items s i || any-upper prev pattern s i

match_from-upper :
    (prev : Option ℕ) (pattern : Pattern) (s : List ℕ)
    → match_from (Option.map upper prev) pattern (map upper s) ≡ match_from prev pattern s
unfolding match_from
match_from-upper prev pattern [] = any-upper prev pattern []
match_from-upper prev pattern (x ∷ s) =
    λ i. any-upper prev pattern (x ∷ s) i || match_from-upper (some x) pattern s i

any_match-upper :
    (patterns : List Pattern) (s : List ℕ) → any_match patterns (map upper s) ≡ any_match patterns s
unfolding any_match
any_match-upper [] s = refl
any_match-upper (pattern ∷ patterns) s =
    λ i. match_from-upper none pattern s i || any_match-upper patterns s i

is_injection_detected-upper :
    (s : List ℕ) → is_injection_detected (map upper s) ≡ is_injection_detected s
unfolding is_injection_detected
is_injection_detected-upper s = any_match-upper injection_patterns s

-- The case of letters does not matter: texts that are the same when their ASCII letters are put in upper
-- case get the same answer from the filter.
pub is_injection_detected-case :
    (s t : List ℕ) → map upper s ≡ map upper t → is_injection_detected s ≡ is_injection_detected t
is_injection_detected-case s t e =
    sym (is_injection_detected-upper s) ∙ ap is_injection_detected e ∙ is_injection_detected-upper t
