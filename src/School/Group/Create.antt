-- ===== src/School/Group/Create.antt =====
-- Creating a group: `createGroup` of backend/src/repositories/subject.repository.ts and of
-- backend/src/subjects/subject-groups.service.ts. The random bytes of an attempt and the id that the
-- database makes are its draw.
use proj_track_official.Prelude.{
  ℕ, zero, suc, ◌%◌, Bool, ◌||◌, not, Option, none, some, List, [], ◌∷◌, ◌++◌, any, if◌then◌else◌,
}
use proj_track_official.Prelude.Text.{Text, codes, text_eq, trim}
use proj_track_official.Prelude.Outcome.{
  conflict, Handler, ◌>>=◌, ◌>>◌, get, require, throw, return, lift, transaction, done,
}
use proj_track_official.School.Group.Checks.{create_prechecks}
use proj_track_official.School.Store.{StudentProfile, Subject, Group, leader, Store}
use proj_track_official.School.Membership.{require_can_create_group}
use proj_track_official.School.Group.Rows.{
  require_user_id, is_member_of, group_status_for, add_member, clashes,
}

-- The alphabet of invite codes.
abbrev pub alphabet : Text
alphabet = codes "ABCDEFGHJKLMNPQRSTUVWXYZ23456789"

-- `alphabet[i]`; past the end the source would append `undefined`, and no index is.
abbrev pub letter_at : Text → ℕ → Text
letter_at [] i = []
letter_at (c ∷ rest) zero = c ∷ []
letter_at (c ∷ rest) (suc i) = letter_at rest i

abbrev pub token : List ℕ → Text
token [] = []
token (byte ∷ bytes) = letter_at alphabet (byte % 32) ++ token bytes

-- `buildInviteCode` of ten random bytes
unfoldable pub build_invite_code : List ℕ → Text
build_invite_code bytes = codes "PRJ-" ++ token bytes

pub record Draw : Type 0 where
  pub id : Text
  pub bytes : List ℕ

unfoldable pub new_group : Subject → StudentProfile → Text → Text → Text → Draw → Group
unfolding build_invite_code group_status_for
new_group subject profile subject_id name user draw = record {
  id = draw.id;
  subject_id = subject_id;
  section_id = profile.section_id;
  name = name;
  invite_code = build_invite_code draw.bytes;
  leader_id = some user;
  status = group_status_for (some subject) 1;
}

-- Does a unique index of `Group` or of `GroupMember` refuse the rows?
abbrev pub is_refused : Group → Text → Store → Bool
is_refused g user s =
    any (λ (x : Group). text_eq x.id g.id || text_eq x.invite_code g.invite_code) s.groups
    || any (clashes g user) s.members

-- `group.create`, with the leader's row
unfoldable pub create_row : Group → Text → Handler Store (Option Group)
create_row g user s =
    if is_refused g user s
    then done none s
    else done (some g) (add_member g user leader (record s { groups = s.groups ++ g ∷ [] }))

-- The transaction of one attempt; `none` is the error of a unique index.
unfoldable pub try_create :
    Subject → StudentProfile → Text → Text → Text → Draw → Handler Store (Option Group)
unfolding create_row new_group
try_create subject profile subject_id name user draw = transaction (do
  s ← get
  require (not (any (is_member_of subject_id user) s.members))
      (conflict "You are already assigned to a group for this subject.")
  create_row (new_group subject profile subject_id name user draw) user)

-- `return` in the loop, or `continue`
abbrev pub unless_made : Handler Store Group → Option Group → Handler Store Group
unless_made next none = next
unless_made next (some g) = return g

-- The loop of `createGroup`, with the attempts that are left.
unfoldable pub create_attempts :
    Subject → StudentProfile → Text → Text → Text → ℕ → (ℕ → Draw) → Handler Store Group
unfolding try_create
create_attempts subject profile subject_id name user zero draws =
    throw (conflict "Unable to allocate a unique group invite code. Please try again.")
create_attempts subject profile subject_id name user (suc left) draws =
    try_create subject profile subject_id name user (draws left)
    >>= unless_made (create_attempts subject profile subject_id name user left draws)

-- `SubjectRepository.createGroup`: five attempts, and `draws left` is the draw with `left` to follow.
unfoldable pub create_in_repository : Text → Text → Text → (ℕ → Draw) → Handler Store Group
unfolding create_prechecks create_attempts
create_in_repository subject_id name user draws = do
  s ← get
  (subject, profile) ← lift (create_prechecks subject_id name user s)
  create_attempts subject profile subject_id (trim name) user 5 draws

-- `SubjectGroupsService.createGroup`
unfoldable pub create_group : Text → Text → Option Text → (ℕ → Draw) → Handler Store Group
unfolding require_user_id create_in_repository
create_group subject_id name leader_user_id draws = do
  user ← lift (require_user_id leader_user_id)
  s ← get
  allowed ← lift (require_can_create_group (some user) subject_id s)
  create_in_repository subject_id name user draws
