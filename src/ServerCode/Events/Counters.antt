-- ===== src/ServerCode/Events/Counters.antt =====
-- lib/server-code/events.js: the events of the cache, the counters, the timers and the custom ones.
use js_code_runner.Common.{List, [], ◌∷◌}
use js_code_runner.ServerCode.Events.Types.{
  EventType, event, cache, atomic_operation, timer, custom,
}

abbrev pub cache_events : List EventType
cache_events =
    event 1001 "beforePut" cache ("key" ∷ "value" ∷ "ttl" ∷ [])
    ∷ event 1002 "afterPut" cache ("key" ∷ "value" ∷ "ttl" ∷ "result" ∷ [])
    ∷ event 1003 "beforeGet" cache ("key" ∷ [])
    ∷ event 1004 "afterGet" cache ("key" ∷ "result" ∷ [])
    ∷ event 1005 "beforeContains" cache ("key" ∷ [])
    ∷ event 1006 "afterContains" cache ("key" ∷ "result" ∷ [])
    ∷ event 1007 "beforeExpireAt" cache ("key" ∷ "expireAt" ∷ [])
    ∷ event 1008 "afterExpireAt" cache ("key" ∷ "expireAt" ∷ "result" ∷ [])
    ∷ event 1009 "beforeExpireIn" cache ("key" ∷ "expireIn" ∷ [])
    ∷ event 1010 "afterExpireIn" cache ("key" ∷ "expireIn" ∷ "result" ∷ [])
    ∷ event 1011 "beforeDelete" cache ("key" ∷ [])
    ∷ event 1012 "afterDelete" cache ("key" ∷ "result" ∷ [])
    ∷ []

abbrev pub atomic_operation_events : List EventType
atomic_operation_events =
    event 1201 "beforeReset" atomic_operation ("counterName" ∷ [])
    ∷ event 1202 "afterReset" atomic_operation ("counterName" ∷ "result" ∷ [])
    ∷ event 1203 "beforeGetAndIncrement" atomic_operation ("counterName" ∷ [])
    ∷ event 1204 "afterGetAndIncrement" atomic_operation ("counterName" ∷ "result" ∷ [])
    ∷ event 1205 "beforeIncrementAndGet" atomic_operation ("counterName" ∷ [])
    ∷ event 1206 "afterIncrementAndGet" atomic_operation ("counterName" ∷ "result" ∷ [])
    ∷ event 1207 "beforeGetAndDecrement" atomic_operation ("counterName" ∷ [])
    ∷ event 1208 "afterGetAndDecrement" atomic_operation ("counterName" ∷ "result" ∷ [])
    ∷ event 1209 "beforeDecrementAndGet" atomic_operation ("counterName" ∷ [])
    ∷ event 1210 "afterDecrementAndGet" atomic_operation ("counterName" ∷ "result" ∷ [])
    ∷ event 1211 "beforeAddAndGet" atomic_operation ("counterName" ∷ "value" ∷ [])
    ∷ event 1212 "afterAddAndGet" atomic_operation ("counterName" ∷ "value" ∷ "result" ∷ [])
    ∷ event 1213 "beforeGetAndAdd" atomic_operation ("counterName" ∷ "value" ∷ [])
    ∷ event 1214 "afterGetAndAdd" atomic_operation ("counterName" ∷ "value" ∷ "result" ∷ [])
    ∷ event 1215 "beforeGet" atomic_operation ("counterName" ∷ [])
    ∷ event 1216 "afterGet" atomic_operation ("counterName" ∷ "result" ∷ [])
    ∷ event 1217 "beforeCompareAndSet" atomic_operation
        ("counterName" ∷ "expected" ∷ "updated" ∷ [])
    ∷ event 1218 "afterCompareAndSet" atomic_operation
        ("counterName" ∷ "expected" ∷ "updated" ∷ "result" ∷ [])
    ∷ event 1219 "beforeList" atomic_operation ("pattern" ∷ [])
    ∷ event 1220 "afterList" atomic_operation ("pattern" ∷ "result" ∷ [])
    ∷ []

abbrev pub timer_events : List EventType
timer_events = event 800 "execute" timer ([]) ∷ []

abbrev pub custom_events : List EventType
custom_events = event 900 "execute" custom ("args" ∷ "result" ∷ []) ∷ []
