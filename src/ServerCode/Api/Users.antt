-- ===== src/ServerCode/Api/Users.antt =====
-- lib/server-code/api/index.js: the registration functions of ServerCode.User, Media and Geo.
use js_code_runner.Common.{List, [], ◌∷◌}
use js_code_runner.ServerCode.Events.Types.{user, media, geo}
use js_code_runner.ServerCode.Api.Types.{Registrar, registrar}

abbrev pub user_api : List Registrar
user_api =
    registrar "beforeLogin" user "beforeLogin"
    ∷ registrar "afterLogin" user "afterLogin"
    ∷ registrar "beforeRegister" user "beforeRegister"
    ∷ registrar "afterRegister" user "afterRegister"
    ∷ registrar "beforeUpdate" user "beforeUpdate"
    ∷ registrar "afterUpdate" user "afterUpdate"
    ∷ registrar "beforeRemove" user "beforeRemove"
    ∷ registrar "afterRemove" user "afterRemove"
    ∷ registrar "beforeDescribe" user "beforeDescribe"
    ∷ registrar "afterDescribe" user "afterDescribe"
    ∷ registrar "beforeRestorePassword" user "beforeRestorePassword"
    ∷ registrar "afterRestorePassword" user "afterRestorePassword"
    ∷ registrar "beforeLogout" user "beforeLogout"
    ∷ registrar "afterLogout" user "afterLogout"
    ∷ registrar "beforeFind" user "beforeFind"
    ∷ registrar "afterFind" user "afterFind"
    ∷ registrar "beforeFindById" user "beforeFindById"
    ∷ registrar "afterFindById" user "afterFindById"
    ∷ registrar "beforeUpdateBulk" user "beforeUpdateBulk"
    ∷ registrar "afterUpdateBulk" user "afterUpdateBulk"
    ∷ registrar "beforeRemoveBulk" user "beforeRemoveBulk"
    ∷ registrar "afterRemoveBulk" user "afterRemoveBulk"
    ∷ registrar "beforeEmailConfirmed" user "beforeEmailConfirmed"
    ∷ registrar "afterEmailConfirmed" user "afterEmailConfirmed"
    ∷ registrar "beforeSocialLogin" user "beforeSocialLogin"
    ∷ registrar "afterSocialLogin" user "afterSocialLogin"
    ∷ registrar "beforeSocialRegister" user "beforeSocialRegister"
    ∷ registrar "afterSocialRegister" user "afterSocialRegister"
    ∷ registrar "beforeLoginAsGuest" user "beforeLoginAsGuest"
    ∷ registrar "afterLoginAsGuest" user "afterLoginAsGuest"
    ∷ registrar "beforeOAuthLogin" user "beforeOAuthLogin"
    ∷ registrar "afterOAuthLogin" user "afterOAuthLogin"
    ∷ registrar "beforeOAuthRegister" user "beforeOAuthRegister"
    ∷ registrar "afterOAuthRegister" user "afterOAuthRegister"
    ∷ registrar "beforeGroup" user "beforeGroup"
    ∷ registrar "afterGroup" user "afterGroup"
    ∷ registrar "beforeUpsert" user "beforeUpsert"
    ∷ registrar "afterUpsert" user "afterUpsert"
    ∷ []

abbrev pub media_api : List Registrar
media_api =
    registrar "acceptConnection" media "acceptConnection"
    ∷ registrar "publishStarted" media "publishStarted"
    ∷ registrar "publishFinished" media "publishFinished"
    ∷ registrar "streamCreated" media "streamCreated"
    ∷ registrar "streamFinished" media "streamFinished"
    ∷ []

abbrev pub geo_api : List Registrar
geo_api =
    registrar "beforeAddPoint" geo "beforeAddPoint"
    ∷ registrar "afterAddPoint" geo "afterAddPoint"
    ∷ registrar "beforeUpdatePoint" geo "beforeUpdatePoint"
    ∷ registrar "afterUpdatePoint" geo "afterUpdatePoint"
    ∷ registrar "beforeRemovePoint" geo "beforeRemovePoint"
    ∷ registrar "afterRemovePoint" geo "afterRemovePoint"
    ∷ registrar "beforeGetCategories" geo "beforeGetCategories"
    ∷ registrar "afterGetCategories" geo "afterGetCategories"
    ∷ registrar "beforeGetPoints" geo "beforeGetPoints"
    ∷ registrar "afterGetPoints" geo "afterGetPoints"
    ∷ registrar "beforeAddCategory" geo "beforeAddCategory"
    ∷ registrar "afterAddCategory" geo "afterAddCategory"
    ∷ registrar "beforeDeleteCategory" geo "beforeDeleteCategory"
    ∷ registrar "afterDeleteCategory" geo "afterDeleteCategory"
    ∷ registrar "beforeRelativeFind" geo "beforeRelativeFind"
    ∷ registrar "afterRelativeFind" geo "afterRelativeFind"
    ∷ []
