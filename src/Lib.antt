-- ===== src/Lib.antt =====
-- ProjTrack: the backend of a system for school projects (TypeScript, backend/src), modelled for
-- verification. The parts that are modelled hold the program's own rules on data:
--
-- * Submission models backend/src/submissions/submission-lifecycle.ts and
--   backend/src/access/policies/submission-access.policy.ts: the statuses as read from text, the table
--   of transitions, and the workflow relation that it implements.
-- * Auth models backend/src/auth. Auth/Throttle is auth-throttle.service.ts (`assertNotBlocked`,
--   `recordFailure`, `reset`); Auth/Tokens is account-action-token.service.ts (`issue`, `consume`,
--   `resolveValidRecord`); Auth/Refresh is the refresh tokens of
--   token.service.ts and Auth/Sessions is auth-session.service.ts (`rotateRefreshSession` as its
--   checks and its guarded commit, `revokeRefreshSession`, `revokeAllForUser`). Auth/Password is
--   password.service.ts; Auth/SignIn is auth.service.ts, where `login`, `activate`, `forgotPassword` and
--   `resetPassword` run the operations of those three on one database.
-- * Mail models backend/src/mail and the constants of backend/src/common/constants. Mail/Job is the row
--   of the queue; Mail/Settings the numbers of the environment; Mail/Limit is mail-limit.service.ts;
--   Mail/Classify is providers/provider-error-classification.ts; Mail/Worker is mail.worker.ts, whose
--   pass (`processDueJobs`) recovers stale locks and processes both queues, and asks Limit before each
--   send and Classify after each failure. Mail/Queue is `createJob` of
--   mail.service.ts, Mail/Queue/Manage its `retryJob`, `cancelJob` and `archiveJob`, and Mail/Bulk its
--   `retryJobs` and `resumePausedJobs`; Mail/Webhook is the suppression list and
--   mail.webhook.service.ts, from the event that was read on.
-- * Deletion models backend/src/data-deletion. Deletion/Request is the lifecycle and the service of
--   requests; Deletion/Erasure the deletions of an execution and the plan; Deletion/Execution the
--   operations of data-deletion-execution.service.ts, `attemptExecution` with every check.
-- * Backup models backend/src/backups/backup-retention.service.ts.
-- * School models what students and teachers do. School/Access, School/Download and School/Membership
--   are backend/src/access/access.service.ts with its policies. School/Group is the groups of a
--   subject: `createGroup` and `joinGroupByCode` of backend/src/repositories/subject.repository.ts and
--   backend/src/subjects/subject-groups.service.ts, and the handlers by which teachers (same file) and
--   administrators (backend/src/admin/admin-groups.service.ts) approve, lock, lead and thin them out.
--   School/Handin, School/Submit and School/Review are `validateStudentSubmission`, `submit` and
--   `review` of backend/src/submissions/submissions.service.ts with
--   backend/src/repositories/submission.repository.ts; School/Uploads is the pending uploads they
--   spend (backend/src/files/files.service.ts). They call Access for who may, and Submission for
--   which step of a status is allowed.
-- * Prelude holds what these share: texts as code points, tables as lists of rows with the bulk
--   operations of the database client, and handlers that return or throw with the store they leave.
--
-- A handler is a function of the store; what it wrote before it threw stays written, except in a
-- transaction. Where two requests may run between each other's steps, the step that decides is a
-- definition of its own and the law is about two of them in a row. Times are milliseconds as natural
-- numbers, and each reading of the clock is an argument. All loops are structural recursions on lists;
-- the attempts at an invite code are counted as the source counts them, five.
--
-- Parameters: the cases of letters beyond ASCII (`CaseTable`), hashing and encryption (`Crypto`), the
-- derivation of keys from passwords (`Scrypt`), the
-- encoding of tokens (`TokenService`), the local calendar (`Calendar`), the ids and random values that
-- the database or the runtime draws, the answers of providers, templates and the suppression list
-- (`Reply`), the statements that the database refuses (`Faults`, `Refusals`), the storage of backups,
-- and whether the object store has the file of an upload.
--
-- Not modelled: the texts of messages that interpolate data, logs, requests' metadata, the user
-- interface, and the services that only query, render or move files; failures of the database are
-- modelled only for the statements of a webhook and for those of a deletion once its checks have passed.
pub mod Prelude
pub mod Submission
pub mod Auth
pub mod Mail
pub mod Deletion
pub mod Backup
pub mod School
