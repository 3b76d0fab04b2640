-- ===== src/Audit/RegistrationState.antt =====
-- `RegistrationState` of extensions/audit/contracts.py.
use sagittarius_engine.Prelude.{◌≡◌, String, Bool, false, Option}
use sagittarius_engine.Audit.Json.{
  null, bool, text, Fields, end, field, Result, ok, ◌>>=◌, get, item, item_or, as_bool, as_text,
  as_optional, text_or_null, text_or_null_lem,
}

pub record RegistrationState : Type 0 where
  pub abstract : String
  pub concrete : Option String
  pub lifetime : String
  pub instantiated : Bool

unfoldable pub to_dict : RegistrationState → Fields
to_dict e = field "abstract" (text e.abstract) (
    field "concrete" (text_or_null e.concrete)
      (field "lifetime" (text e.lifetime) (field "instantiated" (bool e.instantiated) end)))

unfoldable pub from_dict : Fields → Result RegistrationState
from_dict d = do
  abstract ← item "abstract" d >>= as_text
  concrete ← as_optional as_text (item_or "concrete" null d)
  lifetime ← as_text (item_or "lifetime" (text "") d)
  instantiated ← as_bool (item_or "instantiated" (bool false) d)
  ok (record {
    abstract = abstract;
    concrete = concrete;
    lifetime = lifetime;
    instantiated = instantiated;
  })

pub from_dict-to_dict : (e : RegistrationState) → from_dict (to_dict e) ≡ ok e
unfolding from_dict to_dict get
from_dict-to_dict e = rw (text_or_null_lem e.concrete)
