-- ===== src/Lib.antt =====
-- ccdash keeps the sessions of Claude Code on a machine, and the person's to-do list, in a collector
-- (internal/server) that a terminal interface, a web hub (internal/hub) and automated runs read and
-- write. This library models the parts of it that decide something, apart from the network and
-- the display, and with the storage as a parameter, and proves what makes them correct.
--
-- Prelude: what the modules share. A text is the list of its code points; the order of texts, their
-- trimming, the stable sort, results with errors and integers stand in its children.
--
-- Calendar: the part of package time that internal/tasks/rules.go uses. A day is a number, counted
-- from 0000-01-01, and a time has a day, a time of day and the offset of its zone. Calendar/Dates
-- has the definitions: date_of (Time.Date), day_of (time.Date), date_string (DateString), parse_date
-- (parseDate), stamp (Stamp), monday_index (mondayIndex). Years, Months, RoundTrip and Order prove
-- that days, dates and texts determine each other and are in one order. Texts are of the years 0 to
-- 9999, which is what the layout prints; day_limit is the first day after them. A midnight that a
-- zone skips for daylight saving is not modelled.
--
-- Session: internal/model/model.go, the session as the hub's watcher reads it. Session/Colors has ValidColor,
-- Session.Color and ProjectColorOf; the ID that is hashed is ASCII.
--
-- Tasks: internal/tasks and internal/model/task.go, the rules of the to-do list.
--   Tasks/Task       model.Task, TaskNote, the statuses
--   Tasks/Plan       rules.go: ParsePlan, ValidDate, NextBusinessDay, BucketOf, CarriedOver. The loop
--                    over the weekend gets seven rounds, and three are the most it needs
--                    (Plan/Words next_business_day_lem).
--   Tasks/Heading    rules.go: Heading, the buckets' titles with their dates
--   Tasks/Timeline   edit.go: AddNote
--   Tasks/Edit       edit.go: New, SetStatus, Replan
--   Tasks/Patch      edit.go: Apply, as one step for each group of fields; the outcome keeps the task
--                    as an error in the middle leaves it
--   Tasks/Order      rules.go: Less, Sort
--   Tasks/Merge      sync.go: Merge. A pointer to a task is its place in the list, the map from keys
--                    a list of pairs with the last assignment first, and the list of tasks to save a
--                    list of places.
--   Tasks/Import     legacy.go: PlanImport. A map is a list of pairs. The next id is the int64 of the
--                    source, and the file's own next_id is not negative. Import/Named has the map.
--   Tasks/Context    context.go: BuildContext; what the regular expressions find is a parameter
--   Tasks/Storage    internal/db/tasks.go: the operations on the stored list, each in one transaction. The
--                    SQL statements are a parameter, a record of functions on a database of any type;
--                    SQLite's rollback gives back the database as it was, what a commit leaves is a parameter, and a body of a transaction
--                    returns what it has assigned outside, also with an error.
--   Tasks/Sound      the invariant of a stored task
-- The merge and the edits call one another as in the program: Merge calls New, AddNote, SetStatus and
-- Replan; Apply calls SetStatus and Replan; both of these call AddNote.
--
-- Server: internal/server.
--   Server/Escapes   strfilter.go: the filter of a child's output
--   Server/Limiter   ratelimit.go: the token bucket, with tokens in billionths so that a refill is a
--                    whole number
--   Server/Restart   restartwait.go: a restart that waits until the hosted sessions are idle. One round
--                    of the wait loop is `look` and, where that comes to a restart, `commit`: the
--                    program takes its lock twice. What a look at the sessions sees is an argument.
--   Server/Tunnel    hub.go: hubAllowed and tunnelHandler, which requests of the hub's tunnel a device
--                    answers. The regular expressions on paths are tests of what stands between the
--                    slashes.
--
-- Hub: internal/hub.
--   Hub/BreakGlass   breakglass.go: the password login and its lock; the digest is a parameter
--   Hub/ReadTokens   readtoken.go: readTokenAllowed, what a bearer of a read token may read
--   Hub/Peer         peer.go: peerAllowed, what one device may ask of another through the hub; Peer/Routes,
--                    Answers and Reach compose it with Server/Tunnel, the list of the device itself
--   Hub/Login        auth.go and local.go: notBefore with its cache, session, renewSession,
--                    handleLogoutOthers, user, safeNext and the token of the local portal. The signed
--                    cookie is a parameter (Codec), and what the store answers an argument.
--   Hub/Cluster      cluster.go: verify, ownerLocked, the peers after refresh, handleDrop. Cluster/Newest
--                    has the replicas' tunnels of one device and the drops on their way as a step
--                    relation (serveDevice, handleDrop, the end of a tunnel), with as many replicas as
--                    one likes. A new tunnel gets its time and is registered in one step, and each
--                    drop that is sent arrives; broadcastDrop's errors have no step.
--   Hub/Watch        notify.go: watchOnce with spawnPrompts, one look at a device at one time; what the
--                    device answers is an argument. Watch/Board has restartNotice, boardColumn, badgeCount,
--                    allSnapshots, onlineIDs, locateSession and handleActive; Watch/Seen, Prompts
--                    and Quiet have what a look sees and when it sends nothing.
--   Hub/Letters      store.go: validLetter, nextLetter
--   Hub/State        k8sstore.go: the state document (stateDoc, docDevice, docSub) and its changes, each a
--                    function of the document as the closure that the source gives to mutate.
--                    State/Subs and State/Backfill have those of the subscriptions and
--                    backfillLetters. State/Mutate has the replica's copy with refresh, mutate, secret
--                    and deviceByToken; the API server and all that happens between two calls of it
--                    are a parameter (SecretApi). The loop of mutate gets nine rounds, and it makes no
--                    more attempts. State/Atomic says what the server documents (Guarded) and that
--                    a change is then one step of the shared document; State/Sound, Devices,
--                    SubsSound, Lettered and Edits have the invariant of the document. A map is a
--                    list of pairs, the last assignment first; times are milliseconds.
--
-- Collector: internal/server/server.go, attention.go, autoarchive.go and internal/db/db.go, the rows that the
-- collector keeps of the sessions.
--   Collector/Words      truncate, headerVal, summarizeToolInput, ruleFor
--   Collector/Rows       the tables' rows and the statements on a session: upsertSession, SetAttention,
--                        ClearAttention, SetWait, TurnWait, MarkSeen. A table is a list of rows, NULL the
--                        zero value, and a statement succeeds.
--   Collector/Approvals  the approvals and the events
--   Collector/Hooks      handleSessionStart … handleNotification. A hook is the masked payload with what the
--                        headers, gitinfo and the settings say at that time; handlePermissionRequest goes as
--                        far as the row of the approval.
--   Collector/Marks      SetArchived, SetFavorite, SetLater, SetGrid, SetOrigin, SetColor, AutoArchive,
--                        maybeAutoArchive
--   Collector/Listing    GetSession, ListSessions, fillWork
--   Collector/Screens    screenReason and a round of attentionLoop; the operations on the rows that a round
--                        asks for are those of Machine. What screenprompt.Kind finds is an argument.
--   Collector/Holds      the wait of handlePermissionRequest, handleApprovalDecide. Which of its ends the
--                        wait has is an argument, since select may take any that is ready. The hold is
--                        open until close_hold, the deferred delete, which comes after end_wait.
--                        Holds/First has any requests that come while the handler waits.
--   Collector/Projects   SetProjectOrder, MoveProject, RenameProject, ensureProject; a place in the order is kept
--                        as how far it is above and below 0
--   Collector/Machine    the hooks, the discovery's upserts, the marks of the operator and of the collector's
--                        loops on a row, as a data type (Op), and the same on one row. SetProject,
--                        SetUserGroup, TouchSession, the statements on generated titles and RenameProject's
--                        move of the sessions are not among its operations.
--                        Machine/Acts and Refines relate the two, and Keeps carries what holds of a
--                        row through a sequence of operations for Archived, Waits, Spent and Seen.
--
-- Tests in Tasks, Calendar, Server, Hub and Collector, Tasks/StorageTests, Collector/RoundTests, Session/Tests, Hub/StateTests, PeerTests, WatchTests, LoginTests and ClusterTests run the definitions on concrete values.
--
-- Not modelled: a manual place is a number the program has written (1, 2, 3, …), not any float64;
-- the rounding of float64 in the token bucket; a nil list, which is an empty one; the wording of
-- errors and of summaries, which are constructors; the English texts of a notification; SQLite, HTTP, JSON and regular expressions; the
-- terminal interface, the command line and the MCP servers, which are input and output.
pub mod Prelude
pub mod Calendar
pub mod Session
pub mod Tasks
pub mod Server
pub mod Hub
pub mod Collector
