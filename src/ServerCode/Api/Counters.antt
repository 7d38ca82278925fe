-- ===== src/ServerCode/Api/Counters.antt =====
-- lib/server-code/api/index.js: the registration functions of ServerCode.Cache and AtomicOperation.
use js_code_runner.Common.{List, [], ◌∷◌}
use js_code_runner.ServerCode.Events.Types.{cache, atomic_operation}
use js_code_runner.ServerCode.Api.Types.{Registrar, registrar}

abbrev pub cache_api : List Registrar
cache_api =
    registrar "beforePut" cache "beforePut"
    ∷ registrar "afterPut" cache "afterPut"
    ∷ registrar "beforeGet" cache "beforeGet"
    ∷ registrar "afterGet" cache "afterGet"
    ∷ registrar "beforeContains" cache "beforeContains"
    ∷ registrar "afterContains" cache "afterContains"
    ∷ registrar "beforeExpireAt" cache "beforeExpireAt"
    ∷ registrar "afterExpireAt" cache "afterExpireAt"
    ∷ registrar "beforeExpireIn" cache "beforeExpireIn"
    ∷ registrar "afterExpireIn" cache "afterExpireIn"
    ∷ registrar "beforeDelete" cache "beforeDelete"
    ∷ registrar "afterDelete" cache "afterDelete"
    ∷ []

abbrev pub atomic_operation_api : List Registrar
atomic_operation_api =
    registrar "beforeReset" atomic_operation "beforeReset"
    ∷ registrar "afterReset" atomic_operation "afterReset"
    ∷ registrar "beforeGetAndIncrement" atomic_operation "beforeGetAndIncrement"
    ∷ registrar "afterGetAndIncrement" atomic_operation "afterGetAndIncrement"
    ∷ registrar "beforeIncrementAndGet" atomic_operation "beforeIncrementAndGet"
    ∷ registrar "afterIncrementAndGet" atomic_operation "afterIncrementAndGet"
    ∷ registrar "beforeGetAndDecrement" atomic_operation "beforeGetAndDecrement"
    ∷ registrar "afterGetAndDecrement" atomic_operation "afterGetAndDecrement"
    ∷ registrar "beforeDecrementAndGet" atomic_operation "beforeDecrementAndGet"
    ∷ registrar "afterDecrementAndGet" atomic_operation "afterDecrementAndGet"
    ∷ registrar "beforeAddAndGet" atomic_operation "beforeAddAndGet"
    ∷ registrar "afterAddAndGet" atomic_operation "afterAddAndGet"
    ∷ registrar "beforeGetAndAdd" atomic_operation "beforeGetAndAdd"
    ∷ registrar "afterGetAndAdd" atomic_operation "afterGetAndAdd"
    ∷ registrar "beforeGet" atomic_operation "beforeGet"
    ∷ registrar "afterGet" atomic_operation "afterGet"
    ∷ registrar "beforeCompareAndSet" atomic_operation "beforeCompareAndSet"
    ∷ registrar "afterCompareAndSet" atomic_operation "afterCompareAndSet"
    ∷ registrar "beforeList" atomic_operation "beforeList"
    ∷ registrar "afterList" atomic_operation "afterList"
    ∷ []
