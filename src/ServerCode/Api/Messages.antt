-- ===== src/ServerCode/Api/Messages.antt =====
-- lib/server-code/api/index.js: the registration functions of ServerCode.Messaging and File.
use js_code_runner.Common.{List, [], ◌∷◌}
use js_code_runner.ServerCode.Events.Types.{messaging, file}
use js_code_runner.ServerCode.Api.Types.{Registrar, registrar}

abbrev pub messaging_api : List Registrar
messaging_api =
    registrar "beforePublish" messaging "beforePublish"
    ∷ registrar "afterPublish" messaging "afterPublish"
    ∷ registrar "beforeSubscribe" messaging "beforeSubscribe"
    ∷ registrar "afterSubscribe" messaging "afterSubscribe"
    ∷ registrar "beforeCancel" messaging "beforeCancel"
    ∷ registrar "afterCancel" messaging "afterCancel"
    ∷ registrar "beforePoll" messaging "beforePoll"
    ∷ registrar "afterPoll" messaging "afterPoll"
    ∷ registrar "beforeDeviceRegistration" messaging "beforeDeviceRegistration"
    ∷ registrar "afterDeviceRegistration" messaging "afterDeviceRegistration"
    ∷ registrar "beforeSendEmail" messaging "beforeSendEmail"
    ∷ registrar "afterSendEmail" messaging "afterSendEmail"
    ∷ registrar "beforeGetMessageStatus" messaging "beforeGetMessageStatus"
    ∷ registrar "afterGetMessageStatus" messaging "afterGetMessageStatus"
    ∷ registrar "beforePush" messaging "beforePush"
    ∷ registrar "afterPush" messaging "afterPush"
    ∷ registrar "beforePushWithTemplate" messaging "beforePushWithTemplate"
    ∷ registrar "afterPushWithTemplate" messaging "afterPushWithTemplate"
    ∷ registrar "beforeSendEmailFromTemplate" messaging "beforeSendEmailFromTemplate"
    ∷ registrar "afterSendEmailFromTemplate" messaging "afterSendEmailFromTemplate"
    ∷ []

abbrev pub file_api : List Registrar
file_api =
    registrar "beforeUpload" file "beforeUpload"
    ∷ registrar "afterUpload" file "afterUpload"
    ∷ registrar "beforeCount" file "beforeCount"
    ∷ registrar "afterCount" file "afterCount"
    ∷ registrar "beforeListing" file "beforeListing"
    ∷ registrar "afterListing" file "afterListing"
    ∷ registrar "beforeExists" file "beforeExists"
    ∷ registrar "afterExists" file "afterExists"
    ∷ registrar "beforeDeleteFileOrDirectory" file "beforeDeleteFileOrDirectory"
    ∷ registrar "afterDeleteFileOrDirectory" file "afterDeleteFileOrDirectory"
    ∷ registrar "beforeSaveFileFromByteArray" file "beforeSaveFileFromByteArray"
    ∷ registrar "afterSaveFileFromByteArray" file "afterSaveFileFromByteArray"
    ∷ registrar "beforeCopyFileOrDirectory" file "beforeCopyFileOrDirectory"
    ∷ registrar "afterCopyFileOrDirectory" file "afterCopyFileOrDirectory"
    ∷ registrar "beforeMoveFileOrDirectory" file "beforeMoveFileOrDirectory"
    ∷ registrar "afterMoveFileOrDirectory" file "afterMoveFileOrDirectory"
    ∷ registrar "beforeMoveToRepository" file "beforeUpload"
    ∷ registrar "afterMoveToRepository" file "afterUpload"
    ∷ registrar "beforeDownload" file "beforeDownload"
    ∷ []
