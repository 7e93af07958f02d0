-- ===== src/Config/Schema/Save.antt =====
-- config/config.go: SaveConfigToFile, which writes a configuration with the names of its fields, and what a file that
-- was saved gives when it is read again. The values are of any type; what the YAML library writes for one and what
-- viper reads of it are arguments.
mod Tests
use mini_gateway.Common.{
  ◌≡◌, refl, sym, ap, ◌∙◌, arith, subst, String, Bool, true, false, true-ne-false, not, ◌&&◌, ◌||◌,
  List, [], ◌∷◌, map, any, Option, none, some, Elem, Bool-cases, inl, inr, ◌==◌, ==_iff, str_eq,
  eq_iff, if◌then◌else◌,
}
use mini_gateway.Config.Schema.{Field, config_fields}
use mini_gateway.Config.Schema.Defaults.{Key, key_of, same_key, value_at, load_field}

module _ {V W : Type 0} (writes : V → W) where
  -- A configuration is the value of each field, by its name in Go.
  unfoldable pub save_fields : List Field → (String → V) → List (Key × W)
  unfolding key_of
  save_fields fields cfg = map (λ f. (key_of f.name, writes (cfg f.name))) fields

  unfoldable pub save_config_to_file : (String → V) → List (Key × W)
  unfolding save_fields
  save_config_to_file cfg = save_fields config_fields cfg

same_key_self : (k : Key) → same_key k k ≡ true
unfolding same_key
same_key_self [] = refl
same_key_self (x ∷ k) = let own : (x == x) ≡ true = ground arith in rw own (same_key_self k)

same_key_sound : (k l : Key) → same_key k l ≡ true → k ≡ l
unfolding same_key
same_key_sound [] [] e = refl
same_key_sound [] (y ∷ l) e = cc
same_key_sound (x ∷ k) [] e = cc
same_key_sound (x ∷ k) (y ∷ l) e = elim (Bool-cases (x == y)) [
  | inl eq ↦ (λ i. (==_iff x y).0 eq i ∷ same_key_sound k l (rw eq at e) i)
  | inr ne ↦ absurd (true-ne-false (sym e ∙ rw ne refl))
]

-- Whether a field is saved under the key.
abbrev pub is_saved : Key → List Field → Bool
is_saved key fields = any (λ f. same_key (key_of f.name) key) fields

abbrev are_distinct : List Field → Bool
are_distinct [] = true
are_distinct (f ∷ fields) = not (is_saved (key_of f.name) fields) && are_distinct fields

value_at-unsaved :
    {V W : Type 0} (writes : V → W) (key : Key) (fields : List Field) (cfg : String → V)
    → is_saved key fields ≡ false
    → value_at key (save_fields writes fields cfg) ≡ none
unfolding value_at save_fields
value_at-unsaved writes key [] cfg e = refl
value_at-unsaved writes key (f ∷ fields) cfg e =
    let first : same_key (key_of f.name) key ≡ false = ground (arith, e) in
    let others : is_saved key fields ≡ false = ground (arith, e) in
    rw first (value_at-unsaved writes key fields cfg others)

is_saved-Elem :
    (f : Field) (fields : List Field) → Elem f fields → is_saved (key_of f.name) fields ≡ true
is_saved-Elem f [] h = elim h [ ]
is_saved-Elem f (g ∷ fields) (inl e) =
    let own : same_key (key_of g.name) (key_of f.name) ≡ true =
      subst (λ h. same_key (key_of h.name) (key_of f.name) ≡ true) e
        (same_key_self (key_of f.name)) in
    rw own refl
is_saved-Elem f (g ∷ fields) (inr h) = rw (is_saved-Elem f fields h) (ground arith)

value_at-saved :
    {V W : Type 0} (writes : V → W) (f : Field) (fields : List Field) (cfg : String → V)
    → Elem f fields
    → are_distinct fields ≡ true
    → value_at (key_of f.name) (save_fields writes fields cfg) ≡ some (writes (cfg f.name))
unfolding value_at save_fields
value_at-saved writes f [] cfg h d = elim h [ ]
value_at-saved writes f (g ∷ fields) cfg (inl e) d =
    let own : same_key (key_of g.name) (key_of f.name) ≡ true =
      subst (λ h. same_key (key_of h.name) (key_of f.name) ≡ true) e
        (same_key_self (key_of f.name)) in
    rw own (λ i. some (writes (cfg (sym e i).name)))
value_at-saved writes f (g ∷ fields) cfg (inr h) d =
    elim (Bool-cases (same_key (key_of g.name) (key_of f.name))) [
      | inl eq ↦
          (let one = same_key_sound (key_of g.name) (key_of f.name) eq in
            let twice : is_saved (key_of g.name) fields ≡ true =
              ap (λ k. is_saved k fields) one ∙ is_saved-Elem f fields h in
            let once : is_saved (key_of g.name) fields ≡ false = ground (arith, d) in
            absurd (true-ne-false (sym twice ∙ once)))
      | inr ne ↦ rw ne (value_at-saved writes f fields cfg h (ground (arith, d)))
    ]

-- The two fields whose tags are not their names.
abbrev pub is_lost : Field → Bool
is_lost f =
    str_eq f.name "traffic.RateLimit.IPLimits" || str_eq f.name "traffic.RateLimit.RouteLimits"

-- What makes a field of the list lost or kept.
abbrev fits : List Field → Field → Bool
fits fields f =
    if is_lost f
    then not (is_saved (key_of f.tag) fields)
    else same_key (key_of f.tag) (key_of f.name)

config_fields-distinct : are_distinct config_fields ≡ true
unfolding same_key key_of
config_fields-distinct = refl

abbrev all_fit : List Field → List Field → Bool
all_fit fields [] = true
all_fit fields (f ∷ fs) = fits fields f && all_fit fields fs

config_fields-fit : all_fit config_fields config_fields ≡ true
unfolding same_key key_of
config_fields-fit = refl

all_fit-Elem :
    (f : Field) (fields fs : List Field)
    → Elem f fs
    → all_fit fields fs ≡ true
    → fits fields f ≡ true
all_fit-Elem f fields [] h e = elim h [ ]
all_fit-Elem f fields (g ∷ fs) (inl same) e =
    subst (λ h. fits fields h ≡ true) (sym same) (ground (arith, e))
all_fit-Elem f fields (g ∷ fs) (inr h) e = all_fit-Elem f fields fs h (ground (arith, e))

not-true : (b : Bool) → not b ≡ true → b ≡ false
not-true true e = absurd (true-ne-false (sym e))
not-true false e = refl

fits-cases :
    (fields : List Field) (f : Field)
    → fits fields f ≡ true
    → (is_lost f ≡ false → same_key (key_of f.tag) (key_of f.name) ≡ true)
      × (is_lost f ≡ true → is_saved (key_of f.tag) fields ≡ false)
fits-cases fields f e =
    let t = same_key (key_of f.tag) (key_of f.name) in
    let u = not (is_saved (key_of f.tag) fields) in
    (
      λ kept. subst (λ b. (if b then u else t) ≡ true) kept e,
      λ lost.
          not-true (is_saved (key_of f.tag) fields)
            (subst (λ b. (if b then u else t) ≡ true) lost e),
    )

-- A configuration that is saved and read again: every field but two gets what is read of what was written for its
-- value, whatever the values and the defaults are. The IP and the route limits are saved under keys that are not
-- read and get what they would get from an empty file.
pub load_field-save :
    {V W : Type 0} (writes : V → W) (reads : W → V) (zero : V) (defaults : List (Key × V))
    (cfg : String → V) (f : Field)
    → Elem f config_fields
    → load_field reads zero defaults (save_config_to_file writes cfg) f
      ≡ (if is_lost f then load_field reads zero defaults [] f else reads (writes (cfg f.name)))
unfolding load_field save_config_to_file
load_field-save writes reads zero defaults cfg f h =
    let fit = all_fit-Elem f config_fields config_fields h config_fields-fit in
    let (is_kept, is_dropped) = fits-cases config_fields f fit in
    elim (Bool-cases (is_lost f)) [
      | inl lost ↦
          rw (lost, value_at-unsaved writes (key_of f.tag) config_fields cfg (is_dropped lost)) refl
      | inr kept ↦
          let same = same_key_sound (key_of f.tag) (key_of f.name) (is_kept kept) in
          rw (kept, same, value_at-saved writes f config_fields cfg h config_fields-distinct) refl
    ]
