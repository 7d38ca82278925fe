-- ===== src/ServerCode/Descriptor/Enriched.antt =====
-- enrichMethodNode comes to an end, and keeps the node that it is given.
use js_code_runner.Common.{
  ◌≡◌, refl, String, Bool, true, false, Option, none, some, List, inl, inr, Option-cases,
}
use js_code_runner.ServerCode.Classes.{MetaInfo, MethodDef}
use js_code_runner.ServerCode.Descriptor.{done, thrown, to_upper_case}
use js_code_runner.ServerCode.Descriptor.Methods.{
  Typed, MethodNode, tag, is_valid_http_method, split_at_space, Texts, parsed_tag, sampled,
  read_route, routed, enrich_method_node,
}
use js_code_runner.ServerCode.Descriptor.Closed.{Ends, Ends-bind, Ends-if}

parsed_tag-Ends :
    (texts : Texts) (tag : Option String) → Ends (λ (t : String). Unit) (parsed_tag texts tag)
parsed_tag-Ends texts none = tt
parsed_tag-Ends texts (some text) = elim (Option-cases (texts.parse_json text)) [
  | inl e ↦ rw (e, Ends) tt
  | inr (v, e) ↦ rw (e, Ends) tt
]

pub sampled-Ends :
    (texts : Texts) (of_system : Bool) (tags : List (String × String)) (info : MetaInfo)
    → Ends (λ i. Unit) (sampled texts of_system tags info)
unfolding sampled
sampled-Ends texts true tags info = tt
sampled-Ends texts false tags info =
    Ends-bind _ _ (parsed_tag texts (tag "sampleresult" tags)) _
      (parsed_tag-Ends texts (tag "sampleresult" tags))
      (λ r h.
        Ends-bind _ _ (parsed_tag texts (tag "sampleresultloader" tags)) _
          (parsed_tag-Ends texts (tag "sampleresultloader" tags)) (λ l k. tt))

read_route-Ends : (route : String) → Ends (λ r. Unit) (read_route route)
unfolding read_route
read_route-Ends route = elim (Option-cases (split_at_space route)) [
  | inl e ↦ rw (e, Ends) tt
  | inr (r, e) ↦
      rw (e, Ends)
        (Ends-if (λ r. Unit) (is_valid_http_method (to_upper_case r.0)) (done _) (thrown _) tt tt)
]

routed-Ends : (texts : Texts) (route : Option String) → Ends (λ r. Unit) (routed texts route)
routed-Ends texts none = tt
routed-Ends texts (some route) =
    Ends-bind _ _ (read_route route) _ (read_route-Ends route) (λ r h. tt)

pub enrich_method_node-Ends :
    (texts : Texts) (node : Typed) (m : MethodDef)
    → Ends (λ (n : MethodNode). n.typed ≡ node) (enrich_method_node texts node m)
unfolding enrich_method_node
enrich_method_node-Ends texts node m =
    Ends-bind _ _ (sampled texts _ m.tags m.meta_info) _ (sampled-Ends texts _ m.tags m.meta_info)
      (λ info h.
        Ends-bind _ _ (routed texts (tag "route" m.tags)) _ (routed-Ends texts (tag "route" m.tags))
          (λ r k. refl))
