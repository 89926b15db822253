-- ===== src/Advisories/Json.antt =====
-- The JSON values that app/core/osv.py reads, with Python's truth value and iteration of them.
use weedout.Base.{
  ℕ, zero, suc, Bool, true, false, not, ◌||◌, Option, none, some, List, [], ◌∷◌, ◌==◌,
  if◌then◌else◌, is_empty, Result, ok, err,
}
use weedout.Base.Text.{Text, text_eq}

mutual
  pub data Json : Type 0 where
    null : Json
    bool : Bool → Json
    num : ℕ → Json
    str : Text → Json
    arr : Items → Json
    obj : Fields → Json

  pub data Items : Type 0 where
    no_items : Items
    item : Json → Items → Items

  -- The keys are distinct: the decoder keeps one entry of a key.
  pub data Fields : Type 0 where
    no_fields : Fields
    field : Text → Json → Fields → Fields

abbrev pub items : Items → List Json
items no_items = []
items (item v vs) = v ∷ items vs

abbrev pub to_items : List Json → Items
to_items [] = no_items
to_items (v ∷ vs) = item v (to_items vs)

abbrev pub keys : Fields → List Text
keys no_fields = []
keys (field k v fs) = k ∷ keys fs

-- `key in fields`
unfoldable pub has : Text → Fields → Bool
unfolding text_eq
has k no_fields = false
has k (field l v fs) = text_eq k l || has k fs

-- `fields.get(key)`, where an absent key is like `None`
unfoldable pub get : Text → Fields → Json
unfolding text_eq
get k no_fields = null
get k (field l v fs) = let rest = get k fs in if text_eq k l then v else rest

pub data Raised : Type 0 where
  type_error attribute_error : Raised

abbrev characters : Text → List Json
characters [] = []
characters (c ∷ s) = str (c ∷ []) ∷ characters s

abbrev key_items : List Text → List Json
key_items [] = []
key_items (k ∷ ks) = str k ∷ key_items ks

-- `for x in value or []`: a text gives its characters, an object its keys
unfoldable pub iterate : Json → Result Raised (List Json)
iterate null = ok []
iterate (bool false) = ok []
iterate (bool true) = err type_error
iterate (num zero) = ok []
iterate (num (suc n)) = err type_error
iterate (str s) = ok (characters s)
iterate (arr vs) = ok (items vs)
iterate (obj fs) = ok (key_items (keys fs))

-- `bool(value)`
unfoldable pub truthy : Json → Bool
truthy null = false
truthy (bool b) = b
truthy (num n) = not (n == 0)
truthy (str s) = not (is_empty s)
truthy (arr vs) = not (is_empty (items vs))
truthy (obj fs) = not (is_empty (keys fs))

-- `value if isinstance(value, str) and value else None`
unfoldable pub filled : Json → Option Text
filled (str (c ∷ s)) = some (c ∷ s)
filled _ = none

-- `[v for v in values if isinstance(v, str) and v]`
unfoldable pub filled_texts : List Json → List Text
unfolding filled
filled_texts [] = []
filled_texts (v ∷ vs) =
    let rest = filled_texts vs in elim (filled v) [ none ↦ rest | some s ↦ s ∷ rest ]
