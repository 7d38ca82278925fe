-- ===== src/ServerCode/Events/Data.antt =====
-- lib/server-code/events.js: the events of the data service.
use js_code_runner.Common.{List, [], ◌∷◌}
use js_code_runner.ServerCode.Events.Types.{EventType, event, persistence}

abbrev pub persistence_events : List EventType
persistence_events =
    event 100 "beforeCreate" persistence ("item" ∷ [])
    ∷ event 101 "afterCreate" persistence ("item" ∷ "result" ∷ [])
    ∷ event 102 "beforeFindById" persistence ("itemId" ∷ "relations" ∷ [])
    ∷ event 103 "afterFindById" persistence ("itemId" ∷ "relations" ∷ "result" ∷ [])
    ∷ event 104 "beforeLoadRelations" persistence
        ("itemId" ∷ "entityName" ∷ "relationName" ∷ "pageSize" ∷ "offset" ∷ [])
    ∷ event 105 "afterLoadRelations" persistence
        ("itemId" ∷ "entityName" ∷ "relationName" ∷ "pageSize" ∷ "offset" ∷ "result" ∷ [])
    ∷ event 106 "beforeRemove" persistence ("itemId" ∷ [])
    ∷ event 107 "afterRemove" persistence ("itemId" ∷ "result" ∷ [])
    ∷ event 108 "beforeUpdate" persistence ("item" ∷ [])
    ∷ event 109 "afterUpdate" persistence ("item" ∷ "result" ∷ [])
    ∷ event 110 "beforeDescribe" persistence ("itemName" ∷ [])
    ∷ event 111 "afterDescribe" persistence ("itemName" ∷ "result" ∷ [])
    ∷ event 112 "beforeFind" persistence ("query" ∷ [])
    ∷ event 113 "afterFind" persistence ("query" ∷ "result" ∷ [])
    ∷ event 114 "beforeFirst" persistence ("relations" ∷ "relationsDepth" ∷ "properties" ∷ [])
    ∷ event 115 "afterFirst" persistence
        ("relations" ∷ "relationsDepth" ∷ "properties" ∷ "result" ∷ [])
    ∷ event 116 "beforeLast" persistence ("relations" ∷ "relationsDepth" ∷ "properties" ∷ [])
    ∷ event 117 "afterLast" persistence
        ("relations" ∷ "relationsDepth" ∷ "properties" ∷ "result" ∷ [])
    ∷ event 130 "beforeCreateBulk" persistence ("items" ∷ [])
    ∷ event 131 "afterCreateBulk" persistence ("items" ∷ "result" ∷ [])
    ∷ event 118 "beforeUpdateBulk" persistence ("tableName" ∷ "whereClause" ∷ "changes" ∷ [])
    ∷ event 119 "afterUpdateBulk" persistence
        ("tableName" ∷ "whereClause" ∷ "changes" ∷ "result" ∷ [])
    ∷ event 120 "beforeRemoveBulk" persistence ("tableName" ∷ "whereClause" ∷ [])
    ∷ event 121 "afterRemoveBulk" persistence ("tableName" ∷ "whereClause" ∷ "result" ∷ [])
    ∷ event 122 "beforeAddRelation" persistence
        ("columnName" ∷ "parentObjectId" ∷ "childrenArrayORWhereClause" ∷ [])
    ∷ event 123 "afterAddRelation" persistence
        ("columnName" ∷ "parentObjectId" ∷ "childrenArrayORWhereClause" ∷ "result" ∷ [])
    ∷ event 124 "beforeSetRelation" persistence
        ("columnName" ∷ "parentObjectId" ∷ "childrenArrayORWhereClause" ∷ [])
    ∷ event 125 "afterSetRelation" persistence
        ("columnName" ∷ "parentObjectId" ∷ "childrenArrayORWhereClause" ∷ "result" ∷ [])
    ∷ event 126 "beforeDeleteRelation" persistence
        ("columnName" ∷ "parentObjectId" ∷ "childrenArrayORWhereClause" ∷ [])
    ∷ event 127 "afterDeleteRelation" persistence
        ("columnName" ∷ "parentObjectId" ∷ "childrenArrayORWhereClause" ∷ "result" ∷ [])
    ∷ event 128 "beforeCount" persistence ("query" ∷ [])
    ∷ event 129 "afterCount" persistence ("query" ∷ "result" ∷ [])
    ∷ event 134 "beforeTransaction" persistence ("unitOfWork" ∷ [])
    ∷ event 135 "afterTransaction" persistence ("unitOfWork" ∷ "result" ∷ [])
    ∷ event 136 "beforeGroup" persistence ("query" ∷ [])
    ∷ event 137 "afterGroup" persistence ("query" ∷ "result" ∷ [])
    ∷ event 138 "beforeCountInGroup" persistence ("query" ∷ [])
    ∷ event 139 "afterCountInGroup" persistence ("query" ∷ "result" ∷ [])
    ∷ event 140 "beforeUpsert" persistence ("item" ∷ [])
    ∷ event 141 "afterUpsert" persistence ("item" ∷ "result" ∷ [])
    ∷ event 142 "beforeUpsertBulk" persistence ("items" ∷ [])
    ∷ event 143 "afterUpsertBulk" persistence ("items" ∷ "result" ∷ [])
    ∷ []
