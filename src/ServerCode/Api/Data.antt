-- ===== src/ServerCode/Api/Data.antt =====
-- lib/server-code/api/index.js: the registration functions of ServerCode.Persistence.
use js_code_runner.Common.{List, [], ◌∷◌}
use js_code_runner.ServerCode.Events.Types.{persistence}
use js_code_runner.ServerCode.Api.Types.{Registrar, registrar}

abbrev pub data_api : List Registrar
data_api =
    registrar "beforeCreate" persistence "beforeCreate"
    ∷ registrar "afterCreate" persistence "afterCreate"
    ∷ registrar "beforeFindById" persistence "beforeFindById"
    ∷ registrar "afterFindById" persistence "afterFindById"
    ∷ registrar "beforeLoadRelations" persistence "beforeLoadRelations"
    ∷ registrar "afterLoadRelations" persistence "afterLoadRelations"
    ∷ registrar "beforeRemove" persistence "beforeRemove"
    ∷ registrar "afterRemove" persistence "afterRemove"
    ∷ registrar "beforeUpdate" persistence "beforeUpdate"
    ∷ registrar "afterUpdate" persistence "afterUpdate"
    ∷ registrar "beforeDescribe" persistence "beforeDescribe"
    ∷ registrar "afterDescribe" persistence "afterDescribe"
    ∷ registrar "beforeFind" persistence "beforeFind"
    ∷ registrar "afterFind" persistence "afterFind"
    ∷ registrar "beforeFirst" persistence "beforeFirst"
    ∷ registrar "afterFirst" persistence "afterFirst"
    ∷ registrar "beforeLast" persistence "beforeLast"
    ∷ registrar "afterLast" persistence "afterLast"
    ∷ registrar "beforeCreateBulk" persistence "beforeCreateBulk"
    ∷ registrar "afterCreateBulk" persistence "afterCreateBulk"
    ∷ registrar "beforeUpdateBulk" persistence "beforeUpdateBulk"
    ∷ registrar "afterUpdateBulk" persistence "afterUpdateBulk"
    ∷ registrar "beforeRemoveBulk" persistence "beforeRemoveBulk"
    ∷ registrar "afterRemoveBulk" persistence "afterRemoveBulk"
    ∷ registrar "beforeCount" persistence "beforeCount"
    ∷ registrar "afterCount" persistence "afterCount"
    ∷ registrar "beforeAddRelation" persistence "beforeAddRelation"
    ∷ registrar "afterAddRelation" persistence "afterAddRelation"
    ∷ registrar "beforeSetRelation" persistence "beforeSetRelation"
    ∷ registrar "afterSetRelation" persistence "afterSetRelation"
    ∷ registrar "beforeDeleteRelation" persistence "beforeDeleteRelation"
    ∷ registrar "afterDeleteRelation" persistence "afterDeleteRelation"
    ∷ registrar "beforeTransaction" persistence "beforeTransaction"
    ∷ registrar "afterTransaction" persistence "afterTransaction"
    ∷ registrar "beforeGroup" persistence "beforeGroup"
    ∷ registrar "afterGroup" persistence "afterGroup"
    ∷ registrar "beforeCountInGroup" persistence "beforeCountInGroup"
    ∷ registrar "afterCountInGroup" persistence "afterCountInGroup"
    ∷ registrar "beforeUpsert" persistence "beforeUpsert"
    ∷ registrar "afterUpsert" persistence "afterUpsert"
    ∷ registrar "beforeUpsertBulk" persistence "beforeUpsertBulk"
    ∷ registrar "afterUpsertBulk" persistence "afterUpsertBulk"
    ∷ []
