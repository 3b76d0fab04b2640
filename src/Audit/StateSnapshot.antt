-- ===== src/Audit/StateSnapshot.antt =====
-- `StateSnapshot` of extensions/audit/contracts.py.
use sagittarius_engine.Prelude.{ℕ, ◌≡◌, Option, List, All}
use sagittarius_engine.Audit.Json.{
  null, int, arr, obj, Fields, end, field, nil, Result, ok, ◌>>=◌, get, item_or, as_int, as_record,
  as_optional, as_list, read_each-write_each, as_list-write_each, put_some, get-put_some,
  or_else-none, list_field, option_field, list_field_lem, option_field_lem,
}
use sagittarius_engine.Audit.BoundedStructures
use sagittarius_engine.Audit.BoundedStructures.{BoundedStructures}
use sagittarius_engine.Audit.ConfigEntry
use sagittarius_engine.Audit.ConfigEntry.{ConfigEntry, IsMasked}
use sagittarius_engine.Audit.ContainerState
use sagittarius_engine.Audit.ContainerState.{ContainerState}
use sagittarius_engine.Audit.EventState
use sagittarius_engine.Audit.EventState.{EventState}
use sagittarius_engine.Audit.FindingRecord
use sagittarius_engine.Audit.FindingRecord.{FindingRecord}
use sagittarius_engine.Audit.LifecycleState
use sagittarius_engine.Audit.LifecycleState.{LifecycleState}
use sagittarius_engine.Audit.SignalsState
use sagittarius_engine.Audit.SignalsState.{SignalsState}
use sagittarius_engine.Audit.TaskRecord
use sagittarius_engine.Audit.TaskRecord.{TaskRecord}
use sagittarius_engine.Audit.ThreadPoolStats
use sagittarius_engine.Audit.ThreadPoolStats.{ThreadPoolStats}

pub record StateSnapshot : Type 0 where
  pub t : ℕ
  pub lifecycle : Option LifecycleState
  pub events : List EventState
  pub container : Option ContainerState
  pub tasks : List TaskRecord
  pub thread_pools : List ThreadPoolStats
  pub bounded : Option BoundedStructures
  pub config : List ConfigEntry
  pub findings : List FindingRecord
  pub signals : Option SignalsState

unfoldable pub to_dict : StateSnapshot → Fields
to_dict s = put_some "signals" (option_field (λ x. obj (SignalsState.to_dict x)) s.signals) (
    put_some "findings" (list_field (λ x. obj (FindingRecord.to_dict x)) s.findings) (
      put_some "config" (list_field (λ x. obj (ConfigEntry.to_dict x)) s.config) (
        put_some "bounded" (option_field (λ x. obj (BoundedStructures.to_dict x)) s.bounded) (
          put_some "thread_pools" (list_field (λ x. obj (ThreadPoolStats.to_dict x)) s.thread_pools)
            (put_some "tasks" (list_field (λ x. obj (TaskRecord.to_dict x)) s.tasks) (
              put_some "container" (option_field (λ x. obj (ContainerState.to_dict x)) s.container)
                (put_some "events" (list_field (λ x. obj (EventState.to_dict x)) s.events) (
                  put_some "lifecycle"
                    (option_field (λ x. obj (LifecycleState.to_dict x)) s.lifecycle)
                    (field "t" (int s.t) end)))))))))

unfoldable pub from_dict : Fields → Result StateSnapshot
from_dict d = do
  t ← as_int (item_or "t" (int 0) d)
  lifecycle ← as_optional (as_record LifecycleState.from_dict) (item_or "lifecycle" null d)
  events ← as_list (as_record EventState.from_dict) (item_or "events" (arr nil) d)
  container ← as_optional (as_record ContainerState.from_dict) (item_or "container" null d)
  tasks ← as_list (as_record TaskRecord.from_dict) (item_or "tasks" (arr nil) d)
  thread_pools ← as_list (as_record ThreadPoolStats.from_dict) (item_or "thread_pools" (arr nil) d)
  bounded ← as_optional (as_record BoundedStructures.from_dict) (item_or "bounded" null d)
  config ← as_list (as_record ConfigEntry.from_dict) (item_or "config" (arr nil) d)
  findings ← as_list (as_record FindingRecord.from_dict) (item_or "findings" (arr nil) d)
  signals ← as_optional (as_record SignalsState.from_dict) (item_or "signals" null d)
  ok (record {
    t = t;
    lifecycle = lifecycle;
    events = events;
    container = container;
    tasks = tasks;
    thread_pools = thread_pools;
    bounded = bounded;
    config = config;
    findings = findings;
    signals = signals;
  })

-- A snapshot is read back as it was written, if its entries keep their masked values to themselves.
pub from_dict-to_dict : (s : StateSnapshot) → All IsMasked s.config → from_dict (to_dict s) ≡ ok s
unfolding from_dict to_dict get
from_dict-to_dict s h =
    simp (get-put_some, or_else-none)
      (rw (
        option_field_lem LifecycleState.from_dict LifecycleState.to_dict s.lifecycle
            LifecycleState.from_dict-to_dict,
        list_field_lem (as_record EventState.from_dict) (λ x. obj (EventState.to_dict x)) s.events
            (as_list-write_each (as_record EventState.from_dict) (λ x. obj (EventState.to_dict x))
              EventState.from_dict-to_dict s.events),
        option_field_lem ContainerState.from_dict ContainerState.to_dict s.container
            ContainerState.from_dict-to_dict,
        list_field_lem (as_record TaskRecord.from_dict) (λ x. obj (TaskRecord.to_dict x)) s.tasks
            (as_list-write_each (as_record TaskRecord.from_dict) (λ x. obj (TaskRecord.to_dict x))
              TaskRecord.from_dict-to_dict s.tasks),
        list_field_lem (as_record ThreadPoolStats.from_dict) (λ x. obj (ThreadPoolStats.to_dict x))
            s.thread_pools
            (as_list-write_each (as_record ThreadPoolStats.from_dict)
              (λ x. obj (ThreadPoolStats.to_dict x)) ThreadPoolStats.from_dict-to_dict
              s.thread_pools),
        option_field_lem BoundedStructures.from_dict BoundedStructures.to_dict s.bounded
            BoundedStructures.from_dict-to_dict,
        list_field_lem (as_record ConfigEntry.from_dict) (λ x. obj (ConfigEntry.to_dict x)) s.config
            (read_each-write_each (as_record ConfigEntry.from_dict)
              (λ x. obj (ConfigEntry.to_dict x)) IsMasked ConfigEntry.from_dict-to_dict s.config h),
        list_field_lem (as_record FindingRecord.from_dict) (λ x. obj (FindingRecord.to_dict x))
            s.findings
            (as_list-write_each (as_record FindingRecord.from_dict)
              (λ x. obj (FindingRecord.to_dict x)) FindingRecord.from_dict-to_dict s.findings),
        option_field_lem SignalsState.from_dict SignalsState.to_dict s.signals
            SignalsState.from_dict-to_dict,
      ))
