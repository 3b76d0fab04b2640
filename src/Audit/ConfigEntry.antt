-- ===== src/Audit/ConfigEntry.antt =====
-- `ConfigEntry` of extensions/audit/contracts.py.
use sagittarius_engine.Prelude.{
  ◌≡◌, refl, String, Bool, true, false, Option, none, some, if◌then◌else◌, ap, sym,
}
use sagittarius_engine.Audit.Json.{
  null, bool, text, Fields, end, field, Result, ok, ◌>>=◌, get, item, item_or, as_bool, as_text,
  as_optional, text_or_null, text_or_null_lem, put_some, get-put_some, or_else-none, text_field,
  text_field_lem,
}

pub record ConfigEntry : Type 0 where
  pub key : String
  pub source : String
  pub value : Option String
  pub masked : Bool

unfoldable pub to_dict : ConfigEntry → Fields
to_dict c = put_some "value" (if c.masked then none else some (text_or_null c.value)) (
    put_some "source" (text_field c.source)
      (field "key" (text c.key) (field "masked" (bool c.masked) end)))

abbrev read_value : Bool → Fields → Result (Option String)
read_value true d = ok none
read_value false d = as_optional as_text (item_or "value" null d)

unfoldable pub from_dict : Fields → Result ConfigEntry
from_dict d = do
  masked ← as_bool (item_or "masked" (bool false) d)
  key ← item "key" d >>= as_text
  source ← as_text (item_or "source" (text "") d)
  value ← read_value masked d
  ok (record { key = key; source = source; value = value; masked = masked })

-- A masked entry has no value.
abbrev pub IsMasked : ConfigEntry → Type 0
IsMasked c = c.masked ≡ true → c.value ≡ none

read_value_lem :
    (m : Bool) (v : Option String) (d : Fields)
    → (m ≡ true → v ≡ none)
    → get "value" d ≡ (if m then none else some (text_or_null v))
    → read_value m d ≡ ok v
read_value_lem true v d h g = ap ok (sym (h refl))
read_value_lem false v d h g = rw g (text_or_null_lem v)

get_value :
    (c : ConfigEntry)
    → get "value" (to_dict c) ≡ (if c.masked then none else some (text_or_null c.value))
unfolding to_dict get
get_value c = simp (get-put_some, or_else-none)

pub from_dict-to_dict : (c : ConfigEntry) → IsMasked c → from_dict (to_dict c) ≡ ok c
unfolding from_dict to_dict get
from_dict-to_dict c h =
    simp (get-put_some, or_else-none)
      (rw (text_field_lem c.source, read_value_lem c.masked c.value (to_dict c) h (get_value c)))
