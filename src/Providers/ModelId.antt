-- ===== src/Providers/ModelId.antt =====
-- Model specs: `parseModelId` of src/providers/types.ts and `tryParseModelId`, `unique` of
-- src/providers/router-utils.ts.
use Prim.Native.String
use Prim.Native.Char.{Char}
use text.Mathlib.TextLemmas.{nil-append, cons-append}
use saivage.Base.{
  String, ◌≡◌, ap, ◌∙◌, Option, none, some, List, [], ◌∷◌, ◌==◌, elem, split_at, if◌then◌else◌,
  split_at-append, Lacks,
}

pub record ModelId : Type 0 where
  pub provider : String
  pub model : String

abbrev to_model_id : Option (String × String) → Option ModelId
to_model_id none = none
to_model_id (some (provider, model)) = some (record { provider = provider; model = model })

-- `none` where the code throws: there is no "/"
unfoldable pub parse_model_id : String → Option ModelId
unfolding split_at
parse_model_id spec = to_model_id (split_at b'/' spec)

-- `${provider}/${model}`
abbrev pub join_spec : String → String → String
join_spec provider model = String.◌++◌ provider (String.◌++◌ "/" model)

abbrev unique_from : List String → List String → List String
unique_from seen [] = []
unique_from seen (x ∷ xs) =
    let rest = unique_from (x ∷ seen) xs in
    let same = unique_from seen xs in
    if x == "" then same else if elem x seen then same else x ∷ rest

-- `[...new Set(values.filter(Boolean))]`
unfoldable pub unique : List String → List String
unique xs = unique_from [] xs

slash_append : (model : String) → String.◌++◌ "/" model ≡ String.◌∷◌ "/" model
slash_append model = cons-append "/" "" model ∙ ap (String.◌∷◌ "/") (nil-append model)

-- A provider's name has no "/": then the spec of the two parts is read as the two parts.
pub parse_model_id-join_spec :
    (provider model : String)
    → Lacks b'/' provider
    → parse_model_id (join_spec provider model)
      ≡ some (record { provider = provider; model = model })
unfolding parse_model_id
parse_model_id-join_spec provider model h =
    let slash : Char = "/" in
    rw (slash_append model) (ap to_model_id (split_at-append slash provider model h))
