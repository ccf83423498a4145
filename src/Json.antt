-- ===== src/Json.antt =====
-- Python values as the program meets them in decoded events, responses and requests: None, numbers,
-- texts, tuples and dictionaries, with the access by key and the test `in`.
use text.Mathlib.Text.{find?, ◌==◌ as str_eq}
use async_substrate_interfac.Prelude.{
  ℕ, ◌+◌, Bool, false, ◌||◌, Option, none, some, String, if◌then◌else◌, is_some,
}

mutual
  pub data Json : Type 0 where
    null : Json
    num : ℕ → Json
    str : String → Json
    tuple : Items → Json
    dict : Fields → Json

  pub data Items : Type 0 where
    nil : Items
    item : Json → Items → Items

  pub data Fields : Type 0 where
    end : Fields
    field : String → Json → Fields → Fields

-- Where an exception is `none`.
infixl 5 ◌>>=◌
abbrev pub ◌>>=◌ : {A B : Type 0} → Option A → (A → Option B) → Option B
none >>= f = none
some a >>= f = f a

unfoldable pub field_of : String → Fields → Option Json
field_of key end = none
field_of key (field k v l) = if str_eq k key then some v else field_of key l

-- `value[key]`
unfoldable pub key_of : String → Json → Option Json
unfolding field_of
key_of key (dict l) = field_of key l
key_of key _ = none

unfoldable pub in_items : String → Items → Bool
in_items key nil = false
in_items key (item (str s) l) = str_eq s key || in_items key l
in_items key (item _ l) = in_items key l

-- `key in value`, for a dictionary, a text and a tuple; a TypeError is `none`.
unfoldable pub contains : String → Json → Option Bool
unfolding field_of in_items
contains key (dict l) = some (is_some (field_of key l))
contains key (str s) = some (is_some (find? s key))
contains key (tuple l) = some (in_items key l)
contains key _ = none

-- `total += amount`
unfoldable pub add : Json → Json → Option Json
add (num a) (num b) = some (num (a + b))
add _ _ = none
