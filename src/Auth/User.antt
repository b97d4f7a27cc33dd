-- ===== src/Auth/User.antt =====
-- The account of a person, as sign-in reads it: `UserStatus` and `AccountActionTokenType` of
-- backend/src/prisma/prisma-compat.ts, and the status tests of
-- backend/src/common/utils/account-setup-status.ts on the values of the status column.
use proj_track_official.Prelude.{Bool, true, false, ◌||◌}
use proj_track_official.Prelude.Text.{Text}

pub data UserStatus : Type 0 where
  pending_setup pending_activation pending_password_setup active inactive : UserStatus
  restricted disabled archived graduated : UserStatus

pub data Role : Type 0 where
  admin teacher student : Role

pub record User : Type 0 where
  pub id : Text
  pub email : Text
  pub role : Role
  pub status : UserStatus

-- `isActiveUserStatus`, and the tests `status === 'ACTIVE'`
abbrev pub is_active : UserStatus → Bool
is_active active = true
is_active _ = false

-- `isPendingSetupStatus`
abbrev pub is_pending_setup : UserStatus → Bool
is_pending_setup pending_setup = true
is_pending_setup pending_activation = true
is_pending_setup pending_password_setup = true
is_pending_setup _ = false

-- `isBlockedPasswordRecoveryStatus`
abbrev pub is_blocked_for_recovery : UserStatus → Bool
is_blocked_for_recovery inactive = true
is_blocked_for_recovery restricted = true
is_blocked_for_recovery disabled = true
is_blocked_for_recovery archived = true
is_blocked_for_recovery graduated = true
is_blocked_for_recovery _ = false

-- `canSendPasswordRecoveryInstructions`
abbrev pub can_send_recovery : UserStatus → Bool
can_send_recovery s = is_pending_setup s || is_active s
