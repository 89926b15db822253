-- ===== src/Rules/Yaml.antt =====
-- What `yaml.safe_load` returns, as app/core/policy.py looks at it.
use weedout.Base.{
  Bool, true, false, not, Option, none, some, List, [], ◌∷◌, ◌==◌, if◌then◌else◌, is_empty,
}
use weedout.Base.Text.{Text, text_eq, strip}
use weedout.Types.{Score}

mutual
  -- A number is a sign and a count of billionths; `not_finite` is a NaN or an infinity, and `other_value`
  -- a date or another value that is true and none of the rest.
  pub data Yaml : Type 0 where
    null : Yaml
    bool : Bool → Yaml
    number : (negative : Bool) → Score → Yaml
    not_finite other_value : Yaml
    str : Text → Yaml
    sequence : Elements → Yaml
    mapping : Entries → Yaml

  pub data Elements : Type 0 where
    no_elements : Elements
    element : Yaml → Elements → Elements

  -- The keys are distinct: the loader keeps one entry of a key.
  pub data Entries : Type 0 where
    no_entries : Entries
    entry : Yaml → Yaml → Entries → Entries

abbrev pub elements : Elements → List Yaml
elements no_elements = []
elements (element v vs) = v ∷ elements vs

abbrev pub entry_keys : Entries → List Yaml
entry_keys no_entries = []
entry_keys (entry k v es) = k ∷ entry_keys es

abbrev pub key_is : Text → Yaml → Bool
key_is name (str s) = text_eq name s
key_is name _ = false

-- `mapping.get(name)`, where an absent key is like `None`
unfoldable pub lookup : Text → Entries → Yaml
unfolding text_eq
lookup name no_entries = null
lookup name (entry k v es) = let rest = lookup name es in if key_is name k then v else rest

-- `bool(value)`
unfoldable pub is_true : Yaml → Bool
is_true null = false
is_true (bool b) = b
is_true (number negative n) = not (n == 0)
is_true not_finite = true
is_true other_value = true
is_true (str s) = not (is_empty s)
is_true (sequence vs) = not (is_empty (elements vs))
is_true (mapping es) = not (is_empty (entry_keys es))

-- `isinstance(value, str) and value.strip()`, the text that is not blank
unfoldable pub as_filled : Yaml → Option Text
unfolding strip
as_filled (str s) = if is_empty (strip s) then none else some s
as_filled _ = none
