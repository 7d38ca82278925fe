-- ===== src/ServerCode/Jsdoc/Laws.antt =====
-- The parameters of a method, as its documentation comment describes them.
use js_code_runner.Common.{
  ◌≡◌, refl, sym, ◌∙◌, ap, String, not, List, [], ◌∷◌, ◌++◌, if◌then◌else◌, arith, Bool-cases, inl,
  inr, ◌⊎◌,
}
use mathlib.Core.List.{append_assoc, append-nil, map}
use js_code_runner.Common.Lists.{filter}
use text.Mathlib.Text.{◌==◌}
use js_code_runner.ServerCode.Classes.{ParamDoc, ParamDef, MethodDef}
use js_code_runner.ServerCode.Descriptor.{Outcome, done, thrown, exhausted, ◌>>=◌, or_text}
use js_code_runner.ServerCode.Jsdoc.Types.{from_doc}
use js_code_runner.ServerCode.Jsdoc.Params.{
  DocTag, TagParam, param_of, param_def, add_param, add_tag, registered, handle_tag, handle_tags,
  add_params,
}
use js_code_runner.ServerCode.Jsdoc.Docs.{Doc, new_method, describe_method}

-- The parameters that no tag defines, as an independent description.
abbrev pub undefined_by : List String → List ParamDoc → List ParamDef
undefined_by names ps = map param_def (filter (λ p. not (registered p.name names)) ps)

add_params-params :
    (ps : List ParamDoc) (names : List String) (m : MethodDef)
    → (add_params ps names m).params ≡ m.params ++ undefined_by names ps
unfolding add_params add_param
add_params-params [] names m = sym (append-nil m.params)
add_params-params (p ∷ ps) names m = elim (Bool-cases (registered p.name names)) [
  | inl e ↦ ground (arith, e, add_params-params ps names m)
  | inr e ↦ ground (
    arith,
    e,
    add_params-params ps names (add_param p m),
    append_assoc m.params (param_def p ∷ []) (undefined_by names ps),
  )
]

done_inj {ℓ} : {A : Type ℓ} {a b : A} → done a ≡ done b → a ≡ b
done_inj e = cc

Outcome-cases {ℓ} :
    {A : Type ℓ} (o : Outcome A)
    → ((a : A) × (o ≡ done a)) ⊎ (((message : String) × (o ≡ thrown message)) ⊎ (o ≡ exhausted))
Outcome-cases (done a) = inl (a, refl)
Outcome-cases (thrown message) = inr (inl (message, refl))
Outcome-cases exhausted = inr (inr refl)

-- The parameters that the tags define, in their order.
unfoldable pub tag_params : (String → Outcome TagParam) → List DocTag → Outcome (List TagParam)
tag_params parse [] = done []
tag_params parse (t ∷ ts) =
    if not (t.title == "paramdef")
    then tag_params parse ts
    else do p ← parse t.value; ps ← tag_params parse ts; done (p ∷ ps)

abbrev pub names_of : List TagParam → List String → List String
names_of [] names = names
names_of (p ∷ ps) names = names_of ps (p.name ∷ names)

abbrev pub defined_by : List TagParam → List ParamDef
defined_by ps = map (λ (p : TagParam). param_def (param_of p)) ps

abbrev Collected :
    (String → Outcome TagParam)
    → List DocTag
    → MethodDef
    → List String
    → MethodDef × List String
    → Type 0
Collected parse tags m names (m', names') =
    (ps : List TagParam) × (tag_params parse tags ≡ done ps)
    × (m'.params ≡ m.params ++ defined_by ps)
    × (names' ≡ names_of ps names)

handle_tags-Collected :
    (parse : String → Outcome TagParam) (tags : List DocTag) (m : MethodDef) (names : List String)
    (m' : MethodDef) (names' : List String)
    → handle_tags parse tags m names ≡ done (m', names')
    → Collected parse tags m names (m', names')
unfolding handle_tags handle_tag tag_params add_param add_tag
handle_tags-Collected parse [] m names m' names' e =
    let same : (m, names) ≡ (m', names') = done_inj e in
    (
      [],
      refl,
      ap (λ r. r.0.params) (sym same) ∙ sym (append-nil m.params),
      ap (λ r. r.1) (sym same),
    )
handle_tags-Collected parse (t ∷ ts) m names m' names' e =
    elim (Bool-cases (t.title == "paramdef")) [
      | inr plain ↦
          let later : handle_tags parse ts (add_tag t.title t.value m) names ≡ done (m', names') =
            ground (arith, e, plain) in
          let (ps, read, params, ns) =
            handle_tags-Collected parse ts (add_tag t.title t.value m) names m' names' later in
          (ps, ground (arith, plain, read), params, ns)
      | inl defines ↦ elim (Outcome-cases (parse t.value)) [
        | inl (p, parsed) ↦
            let m1 = add_param (param_of p) m in
            let later : handle_tags parse ts m1 (p.name ∷ names) ≡ done (m', names') =
              ground (arith, e, defines, parsed) in
            let (ps, read, params, ns) =
              handle_tags-Collected parse ts m1 (p.name ∷ names) m' names' later in
            (
              p ∷ ps,
              ground (arith, defines, parsed, read),
              params ∙ append_assoc m.params (param_def (param_of p) ∷ []) (defined_by ps),
              ns,
            )
        | inr (inl (message, failed)) ↦ absurd (ground (arith, e, defines, failed))
        | inr (inr failed) ↦ absurd (ground (arith, e, defines, failed))
      ]
    ]

-- describeClasses lists the parameters of a method that it meets for the first time so: those of its
-- `@paramDef` tags in their order, as the tags define them, and then those of the comment in their
-- order, without any that has the name of one which a tag defines.
pub describe_method-params :
    (parse : String → Outcome TagParam) (item : Doc) (m : MethodDef) (ps : List TagParam)
    → describe_method parse item new_method ≡ done m
    → tag_params parse item.tags ≡ done ps
    → m.params ≡ defined_by ps ++ undefined_by (names_of ps []) item.params
unfolding describe_method
describe_method-params parse item m ps made read =
    let opened : MethodDef = record new_method {
      return_type = from_doc item.returns;
      access = or_text item.access "public";
      description = item.description;
    } in
    elim (Outcome-cases (handle_tags parse item.tags opened [])) [
      | inl ((tagged, names), handled) ↦
          let (qs, read', params, ns) =
            handle_tags-Collected parse item.tags opened [] tagged names handled in
          let same : qs ≡ ps = done_inj (sym read' ∙ read) in
          let made' : add_params item.params names tagged ≡ m = ground (arith, made, handled) in
          ap (λ (r : MethodDef). r.params) (sym made')
          ∙ add_params-params item.params names tagged
          ∙ rw (params, ns, same) refl
      | inr (inl (message, failed)) ↦ absurd (ground (arith, made, failed))
      | inr (inr failed) ↦ absurd (ground (arith, made, failed))
    ]
