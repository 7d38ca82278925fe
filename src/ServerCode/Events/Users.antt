-- ===== src/ServerCode/Events/Users.antt =====
-- lib/server-code/events.js: the events of the users and of the legacy geo service.
use js_code_runner.Common.{List, [], ◌∷◌}
use js_code_runner.ServerCode.Events.Types.{EventType, event, user, geo}

abbrev pub user_events : List EventType
user_events =
    event 200 "beforeLogin" user ("login" ∷ "password" ∷ [])
    ∷ event 201 "afterLogin" user ("login" ∷ "password" ∷ "result" ∷ [])
    ∷ event 202 "beforeRegister" user ("user" ∷ [])
    ∷ event 203 "afterRegister" user ("user" ∷ "result" ∷ [])
    ∷ event 204 "beforeUpdate" user ("user" ∷ [])
    ∷ event 205 "afterUpdate" user ("user" ∷ "result" ∷ [])
    ∷ event 206 "beforeRemove" user ("userId" ∷ [])
    ∷ event 207 "afterRemove" user ("userId" ∷ "result" ∷ [])
    ∷ event 208 "beforeDescribe" user ([])
    ∷ event 209 "afterDescribe" user ("result" ∷ [])
    ∷ event 210 "beforeRestorePassword" user ("email" ∷ [])
    ∷ event 211 "afterRestorePassword" user ("email" ∷ "result" ∷ [])
    ∷ event 212 "beforeLogout" user ([])
    ∷ event 213 "afterLogout" user ("result" ∷ [])
    ∷ event 214 "beforeFind" user ("query" ∷ [])
    ∷ event 215 "afterFind" user ("query" ∷ "result" ∷ [])
    ∷ event 216 "beforeFindById" user ("userId" ∷ "relations" ∷ [])
    ∷ event 217 "afterFindById" user ("userId" ∷ "relations" ∷ "result" ∷ [])
    ∷ event 218 "beforeUpdateBulk" user ("whereClause" ∷ "changes" ∷ [])
    ∷ event 219 "afterUpdateBulk" user ("whereClause" ∷ "changes" ∷ "result" ∷ [])
    ∷ event 220 "beforeRemoveBulk" user ("whereClause" ∷ [])
    ∷ event 221 "afterRemoveBulk" user ("whereClause" ∷ "result" ∷ [])
    ∷ event 222 "beforeEmailConfirmed" user ("confirmationKey" ∷ [])
    ∷ event 223 "afterEmailConfirmed" user ("confirmationKey" ∷ "result" ∷ [])
    ∷ event 224 "beforeSocialLogin" user ("userProperties" ∷ "socialType" ∷ [])
    ∷ event 225 "afterSocialLogin" user ("userProperties" ∷ "socialType" ∷ "result" ∷ [])
    ∷ event 226 "beforeSocialRegister" user ("userProperties" ∷ "socialType" ∷ [])
    ∷ event 227 "afterSocialRegister" user ("userProperties" ∷ "socialType" ∷ "result" ∷ [])
    ∷ event 228 "beforeLoginAsGuest" user ([])
    ∷ event 229 "afterLoginAsGuest" user ("result" ∷ [])
    ∷ event 230 "beforeOAuthLogin" user ("userProperties" ∷ "oauthProviderCode" ∷ [])
    ∷ event 231 "afterOAuthLogin" user ("userProperties" ∷ "oauthProviderCode" ∷ "result" ∷ [])
    ∷ event 232 "beforeOAuthRegister" user ("userProperties" ∷ "oauthProviderCode" ∷ [])
    ∷ event 233 "afterOAuthRegister" user ("userProperties" ∷ "oauthProviderCode" ∷ "result" ∷ [])
    ∷ event 234 "beforeGroup" user ("query" ∷ [])
    ∷ event 235 "afterGroup" user ("query" ∷ "result" ∷ [])
    ∷ event 236 "beforeUpsert" user ([])
    ∷ event 237 "afterUpsert" user ("result" ∷ [])
    ∷ []

abbrev pub geo_events : List EventType
geo_events =
    event 402 "beforeAddPoint" geo ("point" ∷ [])
    ∷ event 403 "afterAddPoint" geo ("point" ∷ "result" ∷ [])
    ∷ event 404 "beforeUpdatePoint" geo ("point" ∷ [])
    ∷ event 405 "afterUpdatePoint" geo ("point" ∷ "result" ∷ [])
    ∷ event 406 "beforeRemovePoint" geo ("pointId" ∷ [])
    ∷ event 407 "afterRemovePoint" geo ("pointId" ∷ "result" ∷ [])
    ∷ event 408 "beforeGetCategories" geo ([])
    ∷ event 409 "afterGetCategories" geo ("result" ∷ [])
    ∷ event 410 "beforeGetPoints" geo ("query" ∷ [])
    ∷ event 411 "afterGetPoints" geo ("query" ∷ "result" ∷ [])
    ∷ event 412 "beforeAddCategory" geo ("categoryName" ∷ [])
    ∷ event 413 "afterAddCategory" geo ("categoryName" ∷ "result" ∷ [])
    ∷ event 414 "beforeDeleteCategory" geo ("categoryName" ∷ [])
    ∷ event 415 "afterDeleteCategory" geo ("categoryName" ∷ "result" ∷ [])
    ∷ event 416 "beforeRelativeFind" geo ("query" ∷ [])
    ∷ event 417 "afterRelativeFind" geo ("query" ∷ "result" ∷ [])
    ∷ []
