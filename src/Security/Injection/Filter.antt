-- ===== src/Security/Injection/Filter.antt =====
-- Which requests the injection filter lets through.
use mini_gateway.Common.{
  none-ne-some, true-ne-false, ◌||◌, ◌≡◌, ◌↔◌, inl, inr, String, Bool, true, false, List, [], ◌∷◌,
  Option, none, some, All, any, codes, str_eq, Bool-cases, Option-cases, if◌then◌else◌, refl, sym,
  ◌∙◌, arith,
}
use mini_gateway.Security.{Handled, next, abort}
use mini_gateway.Security.Injection.{
  is_injection_detected, detect_injection, detect_values, detect_fields, Request, form_entries,
  Binder, fields_of, check_header, check_body, anti_injection,
}

-- gin's documentation of BindJSON: it aborts with 400 exactly when the body does not decode.
pub record BindsOrAborts (bind : Binder) : Type 0 where
  pub bound :
      (body : String) (fields : List (String × String))
      → (bind body).1 ≡ some fields
      → (bind body).0 ≡ none
  pub unbound : (body : String) → (bind body).1 ≡ none → (bind body).0 ≡ some 400

-- No pattern matches the key or one of the values.
abbrev pub IsCleanText : String → Type 0
IsCleanText text = is_injection_detected (codes text) ≡ false

abbrev pub AreCleanValues : List (String × List String) → Type 0
AreCleanValues entries =
    All (λ entry. All (λ value. IsCleanText entry.0 × IsCleanText value) entry.1) entries

abbrev pub AreCleanFields : List (String × String) → Type 0
AreCleanFields fields = All (λ field. IsCleanText field.0 × IsCleanText field.1) fields

-- A body that cannot be read; or a JSON object with clean fields, and clean headers.
abbrev pub PassesBody : Binder → Request → Option String → Type 0
PassesBody bind r none = Unit {0}
PassesBody bind r (some body) =
    ((fields : List (String × String)) × ((bind body).1 ≡ some fields) × AreCleanFields fields)
    × AreCleanValues r.header

abbrev pub has_body : Request → Bool
has_body r = str_eq r.method "POST" || str_eq r.method "PUT"

abbrev pub Passes : Binder → Request → Bool → Type 0
Passes bind r true = PassesBody bind r r.body
Passes bind r false = AreCleanValues r.header

detect_injection_iff :
    (key value : String)
    → (detect_injection key value ≡ false) ↔ (IsCleanText key × IsCleanText value)
unfolding detect_injection
detect_injection_iff key value = ground arith

any_iff {ℓ} :
    {A : Type 0} (p : A → Bool) {P : A → Type ℓ} (h : (a : A) → (p a ≡ false) ↔ P a) (xs : List A)
    → (any p xs ≡ false) ↔ All P xs
any_iff p h [] = (λ e. tt, λ e. refl)
any_iff p h (x ∷ xs) = (
  λ e. ((h x).0 (ground (arith, e)), (any_iff p h xs).0 (ground (arith, e))),
  λ all. rw ((h x).1 all.0, (any_iff p h xs).1 all.1) refl,
)

detect_values_iff :
    (entries : List (String × List String))
    → (detect_values entries ≡ false) ↔ AreCleanValues entries
unfolding detect_values
detect_values_iff entries =
    any_iff (λ entry. any (detect_injection entry.0) entry.1)
      (λ entry. any_iff (detect_injection entry.0) (detect_injection_iff entry.0) entry.1) entries

detect_fields_iff :
    (fields : List (String × String)) → (detect_fields fields ≡ false) ↔ AreCleanFields fields
unfolding detect_fields
detect_fields_iff fields =
    any_iff (λ field. detect_injection field.0 field.1)
      (λ field. detect_injection_iff field.0 field.1) fields

-- A check in front of the others.
guard_iff {ℓ κ} :
    (t : Bool) (rest : Handled) {P : Type ℓ} {Q : Type κ}
    → (t ≡ false) ↔ P
    → (rest ≡ next none) ↔ Q
    → ((if t then abort 400 else rest) ≡ next none) ↔ (P × Q)
guard_iff true rest p q = (λ e. absurd (aborts e), λ h. absurd (true-ne-false (p.1 h.0)))
  where
    aborts : ¬ (abort 400 ≡ next none)
    aborts e = cc
guard_iff false rest p q = (λ e. (p.0 refl, q.0 e), λ h. q.1 h.1)

check_header_iff :
    (r : Request) → (check_header none r ≡ next none) ↔ (AreCleanValues r.header × Unit {0})
unfolding check_header
check_header_iff r =
    guard_iff (detect_values r.header) (next none) (detect_values_iff r.header)
      ((λ e. tt), (λ u. refl))

-- A request that is aborted already stays so.
check_header-aborted : (r : Request) → ¬ (check_header (some 400) r ≡ next none)
unfolding check_header
check_header-aborted r e = ground (arith, e)

check_body-unbound :
    (bind : Binder) (r : Request)
    → BindsOrAborts bind
    → (body : String) → (bind body).1 ≡ none
    → check_body bind (some body) r ≡ check_header (some 400) r
unfolding check_body detect_fields
check_body-unbound bind r law body bad = rw (bad, law.unbound body bad) refl

check_body_iff :
    (bind : Binder) (r : Request)
    → BindsOrAborts bind
    → (body : Option String) → (check_body bind body r ≡ next none) ↔ PassesBody bind r body
unfolding check_body
check_body_iff bind r law none = (λ e. tt, λ u. refl)
check_body_iff bind r law (some body) = elim (Option-cases (bind body).1) [
  | inl bad ↦ (
    λ e. absurd (check_header-aborted r (sym (check_body-unbound bind r law body bad) ∙ e)),
    λ h. absurd (none-ne-some (sym bad ∙ h.0.1)),
  )
  | inr (fields, good) ↦
      let checked : (check_header (bind body).0 r ≡ next none)
          ↔ (AreCleanValues r.header × Unit {0}) =
        rw (law.bound body fields good) (check_header_iff r) in
      let both =
        guard_iff (detect_fields (fields_of (bind body).1)) (check_header (bind body).0 r)
          (detect_fields_iff (fields_of (bind body).1)) checked in
      (
        λ e. (let (clean, headers) = both.0 e in ((fields, good, rw good at clean), headers.0)),
        λ h. both.1 (rw h.0.1 h.0.2, (h.1, tt)),
      )
]

rest_iff :
    (bind : Binder) (r : Request)
    → BindsOrAborts bind
    → ((if has_body r then check_body bind r.body r else check_header none r) ≡ next none)
      ↔ Passes bind r (has_body r)
rest_iff bind r law = elim (Bool-cases (has_body r)) [
  | inl yes_body ↦ rw yes_body (check_body_iff bind r law r.body)
  | inr no_body ↦
      rw no_body (λ e. ((check_header_iff r).0 e).0, λ h. (check_header_iff r).1 (h, tt))
]

-- With gin's BindJSON: a request passes the injection filter exactly when no pattern matches a key or a
-- value of its query or of its form, if that parses; and, for POST and PUT, the body cannot be read, or
-- is a JSON object in which no pattern matches a field's name or printed value while none matches a
-- header; and, for the other methods, no pattern matches a header's name or one of its values.
pub anti_injection_iff :
    (bind : Binder) (r : Request)
    → BindsOrAborts bind
    → (anti_injection bind r ≡ next none)
      ↔ (AreCleanValues r.query × AreCleanValues (form_entries r.form) × Passes bind r (has_body r))
unfolding anti_injection
anti_injection_iff bind r law =
    let (passes, clean) = guard_iff (detect_values r.query) _ (detect_values_iff r.query) (
      guard_iff (detect_values (form_entries r.form)) _ (detect_values_iff (form_entries r.form))
        (rest_iff bind r law)) in
    (
      λ e. (let (query, form_rest) = passes e in (query, form_rest.0, form_rest.1)),
      λ h. clean (h.0, (h.1, h.2)),
    )
