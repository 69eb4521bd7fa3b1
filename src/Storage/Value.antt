-- ===== src/Storage/Value.antt =====
-- A value type for JSON of its own, whose texts all stand for one value, with the laws of the interface.
use pcbu_desktop.Base.{
  ℕ, ◌≡◌, refl, ap, ◌∙◌, Bool, true, false, List, [], ◌∷◌, Option, none, some, Bytes, codes,
}
use pcbu_desktop.Storage.{JsonLib}
use pcbu_desktop.Storage.RoundTrip.{IsJson, find_field, or_null}

mutual
  pub data Value : Type 0 where
    nil : Value
    str : Bytes → Value
    num : ℕ → Value
    bit : Bool → Value
    arr : Items → Value
    obj : Fields → Value

  pub data Items : Type 0 where
    no_items : Items
    item : Value → Items → Items

  pub data Fields : Type 0 where
    no_fields : Fields
    field : Bytes → Value → Fields → Fields

abbrev pub to_items : List Value → Items
to_items [] = no_items
to_items (v ∷ vs) = item v (to_items vs)

abbrev pub from_items : Items → List Value
from_items no_items = []
from_items (item v vs) = v ∷ from_items vs

abbrev pub to_fields : List (Bytes × Value) → Fields
to_fields [] = no_fields
to_fields ((k, v) ∷ rest) = field k v (to_fields rest)

abbrev pub from_fields : Fields → List (Bytes × Value)
from_fields no_fields = []
from_fields (field k v rest) = (k, v) ∷ from_fields rest

from_items-to_items : (vs : List Value) → from_items (to_items vs) ≡ vs
from_items-to_items [] = refl
from_items-to_items (v ∷ vs) = rw (from_items-to_items vs) refl

from_fields-to_fields : (fs : List (Bytes × Value)) → from_fields (to_fields fs) ≡ fs
from_fields-to_fields [] = refl
from_fields-to_fields ((k, v) ∷ rest) = rw (from_fields-to_fields rest) refl

abbrev pub value_items : Value → List Value
value_items (arr vs) = from_items vs
value_items _ = []

abbrev pub value_get : Value → Bytes → Option Value
value_get (obj fs) key = some (or_null nil (find_field (from_fields fs) key))
value_get _ key = none

abbrev pub is_found : Option Value → Bool
is_found none = false
is_found (some v) = true

abbrev pub value_has : Value → Bytes → Bool
value_has (obj fs) key = is_found (find_field (from_fields fs) key)
value_has _ key = false

abbrev pub value_text : Value → Option Bytes
value_text (str t) = some t
value_text _ = none

abbrev pub value_port : Value → Option ℕ
value_port (num n) = some n
value_port _ = none

abbrev pub text_or : Bytes → Option Value → Option Bytes
text_or default none = some default
text_or default (some v) = value_text v

abbrev pub value_or_default : Value → Bytes → Bytes → Option Bytes
value_or_default (obj fs) key default = text_or default (find_field (from_fields fs) key)
value_or_default _ key default = none

abbrev pub is_arr : Value → Bool
is_arr (arr vs) = true
is_arr _ = false

abbrev pub is_obj : Value → Bool
is_obj (obj fs) = true
is_obj _ = false

abbrev pub value_lib : Value → JsonLib Value
value_lib stored = record {
  null = nil;
  text = str;
  number = num;
  array = λ vs. arr (to_items vs);
  object = λ fs. obj (to_fields fs);
  parse = λ bytes. some stored;
  dump = λ v. some (codes "x");
  items = value_items;
  get = value_get;
  has_key = value_has;
  value_or = value_or_default;
  is_array = is_arr;
  is_object = is_obj;
  to_text = value_text;
  to_port = value_port;
}

pub find_field-to_fields :
    (fields : List (Bytes × Value)) (key : Bytes) (o : Option Value)
    → find_field fields key ≡ o
    → find_field (from_fields (to_fields fields)) key ≡ o
find_field-to_fields fields key o e =
    ap (λ fs. find_field fs key) (from_fields-to_fields fields) ∙ e

pub value-IsJson : (stored : Value) → IsJson (value_lib stored)
value-IsJson stored = record {
  get_object = λ fields key. rw (from_fields-to_fields fields) refl;
  has_key_object = λ fields key {j} e. ap is_found (find_field-to_fields fields key (some j) e);
  value_object =
      λ fields key default {j} e. ap (text_or default) (find_field-to_fields fields key (some j) e);
  to_text_text = λ t. refl;
  to_port_number = λ n h. refl;
  items_array = from_items-to_items;
  items_null = refl;
  is_array_array = λ vs. refl;
  is_object_object = λ fs. refl;
}
