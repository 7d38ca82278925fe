-- ===== src/ServerCode/Descriptor/Routes.antt =====
-- The route of a method in its description.
use js_code_runner.Common.{
  ◌≡◌, refl, ◌∙◌, ap, String, true, Option, none, some, arith, Bool-cases, inl, inr, eq_of_some,
  Option-cases, if◌then◌else◌,
}
use Prim.Native.String
use Prim.Native.Char.{char}
use Prim.Native.String.append.{nil, cons}
use js_code_runner.ServerCode.Classes.{MethodDef}
use js_code_runner.ServerCode.Descriptor.{done, to_upper_case}
use js_code_runner.ServerCode.Descriptor.Methods.{
  Typed, MethodNode, Texts, tag, is_valid_http_method, split_at_space, read_route, sampled, routed,
  enrich_method_node,
}
use js_code_runner.ServerCode.Descriptor.Closed.{Ends, Ends-bind}
use js_code_runner.ServerCode.Descriptor.Services.{Ends-done}
use js_code_runner.ServerCode.Descriptor.Enriched.{sampled-Ends}

spaced : (path : String) → String.◌++◌ " " path ≡ String.◌∷◌ (char 32 tt) path
spaced path = cons (char 32 tt) String.[] path ∙ ap (λ s. String.◌∷◌ (char 32 tt) s) (nil path)

split_at_space-written :
    (verb path : String)
    → split_at_space verb ≡ none
    → split_at_space (String.◌++◌ verb (String.◌++◌ " " path)) ≡ some (verb, path)
unfolding split_at_space
split_at_space-written String.[] path h =
    rw (nil (String.◌++◌ " " path), spaced path, split_at_space) refl
split_at_space-written (String.◌∷◌ c s) path h =
    let behind : String = String.◌++◌ " " path in
    let later : split_at_space s ≡ none = elim (Option-cases (split_at_space s)) [
      | inl e ↦ e
      | inr (r, e) ↦ absurd (ground (arith, h, e))
    ] in
    rw (cons c s behind, split_at_space) (ground (arith, h, split_at_space-written s path later))

module _ (verb path : String) where
  abbrev written : String
  written = String.◌++◌ verb (String.◌++◌ " " path)

  abbrev IsRoute : String × String → Type 0
  IsRoute r = (is_valid_http_method (to_upper_case verb) ≡ true) × (r ≡ (to_upper_case verb, path))

  read_route-Written : split_at_space verb ≡ none → Ends IsRoute (read_route written)
  unfolding read_route
  read_route-Written word =
      rw (split_at_space-written verb path word, Ends)
        (elim (Bool-cases (is_valid_http_method (to_upper_case verb))) [
          | inl e ↦ rw (e, Ends, if◌then◌else◌) (e, refl)
          | inr e ↦ rw (e, Ends, if◌then◌else◌) tt
        ])

  routed-Written :
      (texts : Texts) (route : Option String)
      → split_at_space verb ≡ none
      → route ≡ some written
      → Ends
          (λ r.
            (is_valid_http_method (to_upper_case verb) ≡ true)
            × (r ≡ some (to_upper_case verb, path)))
          (routed texts route)
  routed-Written texts none word given = absurd cc
  routed-Written texts (some route) word given =
      let same : route ≡ written = eq_of_some given in
      rw same (
        Ends-bind IsRoute _ (read_route written) _ (read_route-Written word)
          (λ r (valid, made). (valid, ap (λ x. some x) made)))

  enrich_method_node-Written :
      (texts : Texts) (node : Typed) (m : MethodDef)
      → split_at_space verb ≡ none
      → tag "route" m.tags ≡ some written
      → Ends
          (λ (n : MethodNode).
            (is_valid_http_method (to_upper_case verb) ≡ true)
            × (n.http_method ≡ some (to_upper_case verb))
            × (n.path ≡ some path))
          (enrich_method_node texts node m)
  unfolding enrich_method_node
  enrich_method_node-Written texts node m word given =
      Ends-bind _ _ (sampled texts _ m.tags m.meta_info) _ (sampled-Ends texts _ m.tags m.meta_info)
        (λ info h.
          Ends-bind _ _ (routed texts (tag "route" m.tags)) _
            (routed-Written texts (tag "route" m.tags) word given)
            (λ r (valid, made). (valid, rw made refl, rw made refl)))

-- A method whose route tag is a word, a space and a path is described with the word in capitals as
-- its HTTP method and with the path; and if it is described at all, that is one of GET, PUT, POST and
-- DELETE.
pub enrich_method_node-route :
    (texts : Texts) (node : Typed) (m : MethodDef) (verb path : String) (n : MethodNode)
    → split_at_space verb ≡ none
    → tag "route" m.tags ≡ some (String.◌++◌ verb (String.◌++◌ " " path))
    → enrich_method_node texts node m ≡ done n
    → (n.http_method ≡ some (to_upper_case verb))
      × (n.path ≡ some path)
      × (is_valid_http_method (to_upper_case verb) ≡ true)
enrich_method_node-route texts node m verb path n word given made =
    let (verified, method_made, path_made) =
      Ends-done _ _ n (enrich_method_node-Written verb path texts node m word given) made in
    (method_made, path_made, verified)
