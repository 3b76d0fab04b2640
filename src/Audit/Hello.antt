-- ===== src/Audit/Hello.antt =====
-- `Hello` of extensions/audit/contracts.py.
use sagittarius_engine.Prelude.{ℕ, ◌≡◌, refl, String, List}
use sagittarius_engine.Audit.Json.{
  int, text, arr, Fields, end, field, nil, Result, ok, ◌>>=◌, get, item, item_or, as_int, as_text,
  as_list, write_each, as_list-write_each,
}

pub record Hello : Type 0 where
  pub protocol_version : ℕ
  pub epoch_wall_ns : ℕ
  pub clock_resolution_ns : ℕ
  pub capacity : ℕ
  pub dropped_before_connect : ℕ
  pub lanes : List String

unfoldable pub to_dict : Hello → Fields
to_dict e = field "v" (int e.protocol_version) (
    field "epoch_wall_ns" (int e.epoch_wall_ns) (
      field "clock_resolution_ns" (int e.clock_resolution_ns) (
        field "capacity" (int e.capacity) (
          field "dropped_before_connect" (int e.dropped_before_connect)
            (field "lanes" (arr (write_each text e.lanes)) end)))))

unfoldable pub from_dict : Fields → Result Hello
from_dict d = do
  protocol_version ← item "v" d >>= as_int
  epoch_wall_ns ← as_int (item_or "epoch_wall_ns" (int 0) d)
  clock_resolution_ns ← as_int (item_or "clock_resolution_ns" (int 1000) d)
  capacity ← as_int (item_or "capacity" (int 0) d)
  dropped_before_connect ← as_int (item_or "dropped_before_connect" (int 0) d)
  lanes ← as_list as_text (item_or "lanes" (arr nil) d)
  ok (record {
    protocol_version = protocol_version;
    epoch_wall_ns = epoch_wall_ns;
    clock_resolution_ns = clock_resolution_ns;
    capacity = capacity;
    dropped_before_connect = dropped_before_connect;
    lanes = lanes;
  })

pub from_dict-to_dict : (e : Hello) → from_dict (to_dict e) ≡ ok e
unfolding from_dict to_dict get
from_dict-to_dict e = rw (as_list-write_each as_text text (λ s. refl) e.lanes)
