-- ===== src/Security/Injection/Tests.antt =====
-- The injection filter at texts and requests.
use mini_gateway.Common.{
  ℕ, ◌≡◌, ◌↔◌, String, Bool, true, false, List, [], ◌∷◌, Option, none, some, codes, str_eq, refl,
}
use mini_gateway.Security.{next, abort}
use mini_gateway.Security.Injection.{
  is_injection_detected, Request, Binder, form_entries, anti_injection,
}
use mini_gateway.Security.Injection.Filter.{
  BindsOrAborts, AreCleanValues, Passes, has_body, anti_injection_iff,
}

abbrev detected : String → Bool
detected text = is_injection_detected (codes text)

keyword_found : detected "id=1; DROP table" ≡ true
unfolding is_injection_detected
keyword_found = refl

part_of_a_word : detected "dropout selected" ≡ false
unfolding is_injection_detected
part_of_a_word = refl

event_handler : detected "ONLOAD =alert" ≡ true
unfolding is_injection_detected
event_handler = refl

backslash : detected "a\\/b" ≡ true
unfolding is_injection_detected
backslash = refl

-- A binder that takes one text for an object.
abbrev object_or_400 : Bool → Option ℕ × Option (List (String × String))
object_or_400 true = (none, some (("name", "bob") ∷ []))
object_or_400 false = (some 400, none)

abbrev bind : Binder
bind body = object_or_400 (str_eq body "{\"name\": \"bob\"}")

bind-BindsOrAborts : BindsOrAborts bind
bind-BindsOrAborts = record {
  bound = λ body fields e. by_object (str_eq body "{\"name\": \"bob\"}") fields e;
  unbound = λ body e. by_other (str_eq body "{\"name\": \"bob\"}") e;
}
  where
    by_object :
        (b : Bool) (fields : List (String × String))
        → (object_or_400 b).1 ≡ some fields
        → (object_or_400 b).0 ≡ none
    by_object true fields e = refl
    by_object false fields e = cc

    by_other : (b : Bool) → (object_or_400 b).1 ≡ none → (object_or_400 b).0 ≡ some 400
    by_other true e = cc
    by_other false e = refl

abbrev post : String → Request
post body = record {
  method = "POST";
  query = ("page", "2" ∷ []) ∷ [];
  form = some (("page", "2" ∷ []) ∷ []);
  body = some body;
  header = ("Accept", "application/json" ∷ []) ∷ [];
}

anti_injection_iff_example : (anti_injection bind (post "name=bob") ≡ next none) ↔ (
    AreCleanValues (post "name=bob").query
    × AreCleanValues (form_entries (post "name=bob").form)
    × Passes bind (post "name=bob") (has_body (post "name=bob")))
anti_injection_iff_example = anti_injection_iff bind (post "name=bob") bind-BindsOrAborts

object_passes : anti_injection bind (post "{\"name\": \"bob\"}") ≡ next none
unfolding anti_injection
object_passes = refl

-- A body that is no JSON is answered with 400, though nothing in it is an injection.
form_refused : anti_injection bind (post "name=bob") ≡ abort 400
unfolding anti_injection
form_refused = refl
