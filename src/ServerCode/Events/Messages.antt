-- ===== src/ServerCode/Events/Messages.antt =====
-- lib/server-code/events.js: the events of messaging and of the files.
use js_code_runner.Common.{List, [], ◌∷◌}
use js_code_runner.ServerCode.Events.Types.{EventType, event, messaging, file}

abbrev pub messaging_events : List EventType
messaging_events =
    event 500 "beforePublish" messaging ("message" ∷ "publishOptions" ∷ "deliveryOptions" ∷ [])
    ∷ event 501 "afterPublish" messaging
        ("message" ∷ "publishOptions" ∷ "deliveryOptions" ∷ "result" ∷ [])
    ∷ event 502 "beforeSubscribe" messaging ("channel" ∷ "options" ∷ [])
    ∷ event 503 "afterSubscribe" messaging ("channel" ∷ "options" ∷ "result" ∷ [])
    ∷ event 504 "beforeCancel" messaging ("messageId" ∷ [])
    ∷ event 505 "afterCancel" messaging ("messageId" ∷ "result" ∷ [])
    ∷ event 506 "beforePoll" messaging ("messageId" ∷ [])
    ∷ event 507 "afterPoll" messaging ("messageId" ∷ "result" ∷ [])
    ∷ event 508 "beforePush" messaging ("templateDescription" ∷ [])
    ∷ event 509 "afterPush" messaging ("templateDescription" ∷ "result" ∷ [])
    ∷ event 510 "beforePushWithTemplate" messaging ("templateName" ∷ [])
    ∷ event 511 "afterPushWithTemplate" messaging ("templateName" ∷ "result" ∷ [])
    ∷ event 512 "beforeDeviceRegistration" messaging ("registration" ∷ [])
    ∷ event 513 "afterDeviceRegistration" messaging ("registration" ∷ "result" ∷ [])
    ∷ event 514 "beforeSendEmail" messaging
        ("subject" ∷ "bodyParts" ∷ "recipients" ∷ "attachments" ∷ [])
    ∷ event 515 "afterSendEmail" messaging
        ("subject" ∷ "bodyParts" ∷ "recipients" ∷ "attachments" ∷ "result" ∷ [])
    ∷ event 516 "beforeGetMessageStatus" messaging ("messageId" ∷ [])
    ∷ event 517 "afterGetMessageStatus" messaging ("messageId" ∷ "result" ∷ [])
    ∷ event 518 "beforeSendEmailFromTemplate" messaging
        ("templateName" ∷ "envelope" ∷ "templateValues" ∷ [])
    ∷ event 519 "afterSendEmailFromTemplate" messaging
        ("templateName" ∷ "envelope" ∷ "templateValues" ∷ "result" ∷ [])
    ∷ []

abbrev pub file_events : List EventType
file_events =
    event 600 "beforeUpload" file ("fileURL" ∷ [])
    ∷ event 601 "afterUpload" file ("fileURL" ∷ "result" ∷ [])
    ∷ event 602 "beforeDeleteFileOrDirectory" file ("fileURL" ∷ "pattern" ∷ "recursive" ∷ [])
    ∷ event 603 "afterDeleteFileOrDirectory" file
        ("fileURL" ∷ "pattern" ∷ "recursive" ∷ "result" ∷ [])
    ∷ event 604 "beforeSaveFileFromByteArray" file ("fileURL" ∷ "overwrite" ∷ [])
    ∷ event 605 "afterSaveFileFromByteArray" file ("fileURL" ∷ "overwrite" ∷ "result" ∷ [])
    ∷ event 606 "beforeCopyFileOrDirectory" file ("source" ∷ "target" ∷ [])
    ∷ event 607 "afterCopyFileOrDirectory" file ("source" ∷ "target" ∷ "result" ∷ [])
    ∷ event 608 "beforeMoveFileOrDirectory" file ("source" ∷ "target" ∷ [])
    ∷ event 609 "afterMoveFileOrDirectory" file ("source" ∷ "target" ∷ "result" ∷ [])
    ∷ event 610 "beforeCount" file ("path" ∷ "pattern" ∷ "recursive" ∷ "isCountDirectories" ∷ [])
    ∷ event 611 "afterCount" file
        ("path" ∷ "pattern" ∷ "recursive" ∷ "isCountDirectories" ∷ "result" ∷ [])
    ∷ event 612 "beforeListing" file ("path" ∷ "pattern" ∷ "recursive" ∷ "pageSize" ∷ "offset" ∷ [])
    ∷ event 613 "afterListing" file
        ("path" ∷ "pattern" ∷ "recursive" ∷ "pageSize" ∷ "offset" ∷ "result" ∷ [])
    ∷ event 614 "beforeExists" file ("path" ∷ [])
    ∷ event 615 "afterExists" file ("path" ∷ "result" ∷ [])
    ∷ event 618 "beforeDownload" file ("fileURL" ∷ [])
    ∷ []
