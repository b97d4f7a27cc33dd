-- ===== src/School/Tests.antt =====
-- The laws of the school's side at a concrete class.
use proj_track_official.Prelude.{
  ◌++◌, ◌⊎◌, Option, ltb, ℕ, ◌≡◌, ◌≤◌, refl, true, false, ◌&&◌, not, none, some, [], ◌∷◌, arith,
  count, ◌||◌, is_some, ◌==◌, if◌then◌else◌,
}
use proj_track_official.Prelude.Text.{
  Text, codes, text_eq, ascii_only, trim, to_upper, to_lower, underscore_spaces, nullish,
}
use proj_track_official.Prelude.Outcome.{succeeded, final, not_found}
use proj_track_official.Submission.Lifecycle.{can_transition, status_text, graded}
use proj_track_official.School.Store.{
  StudentProfile, Subject, Group, pending, leader, Member, present, Task, Submission, File, Upload,
  waiting, Store, find_group, find_subject, find_submission,
}
use proj_track_official.School.Download.{require_can_download, is_file_at, normalize_role}
use proj_track_official.School.Permissions.{may_read, is_reviewer, require_can_download-may_read}
use proj_track_official.School.Group.Rows.{min_size}
use proj_track_official.School.Group.Create.{
  Draw, new_group, create_attempts, create_group, build_invite_code,
}
use proj_track_official.School.Group.Join.{join_locked, join_group_by_code}
use proj_track_official.School.Group.Manage.{admin, assign_leader, remove_member}
use proj_track_official.School.Group.Seats.{is_overfull, join_group_by_code-is_overfull}
use proj_track_official.School.Group.Single.{
  memberships, create_group-memberships, join_locked-memberships,
}
use proj_track_official.School.Group.Checks.{check_joinable, join_prechecks}
use proj_track_official.School.Group.Attempts.{
  create_attempts-succeeded, create_attempts-join_prechecks,
}
use proj_track_official.School.Group.Minimum.{is_in, is_short, remove_member-is_short}
use proj_track_official.School.Group.Leading.{is_leading, is_other_leader, assign_leader-leads}
use proj_track_official.School.Uploads.{consume_pending_uploads}
use proj_track_official.School.Spending.{consume_pending_uploads-twice}
use proj_track_official.School.Handin.{Handin}
use proj_track_official.School.Submit.{submit}
use proj_track_official.School.Deadline.{is_accepting, IsOverdue, submit-status}
use proj_track_official.School.Review.{review}
use proj_track_official.School.Review
use proj_track_official.School.Grading.{review-can_transition}

abbrev ann : StudentProfile
ann = record { id = codes "pa"; user_id = codes "ua"; section_id = some (codes "s") }

abbrev ben : StudentProfile
ben = record { id = codes "pb"; user_id = codes "ub"; section_id = some (codes "s") }

abbrev maths : Subject
maths = record {
  id = codes "m";
  teacher_id = some (codes "t");
  is_open = true;
  group_enabled = true;
  min_group_size = 2;
  max_group_size = 2;
}

abbrev team : Group
team = record {
  id = codes "g";
  subject_id = codes "m";
  section_id = some (codes "s");
  name = codes "Team";
  invite_code = codes "PRJ-A";
  leader_id = some (codes "ua");
  status = pending;
}

abbrev task : Task
task = record {
  id = codes "k";
  subject_id = codes "m";
  title = codes "Essay";
  is_group_task = false;
  is_open = true;
  allow_late = true;
  deadline = some 50;
  open_at = none;
  due_at = none;
  close_at = none;
  accepted_file_types = codes "pdf" ∷ [];
  max_file_size_mb = 1;
  external_links_allowed = false;
}

abbrev essay : Submission
essay = record {
  id = codes "w";
  task_id = codes "k";
  subject_id = codes "m";
  student_id = some (codes "ua");
  group_id = none;
  submitted_by = some (codes "ua");
  title = codes "Essay";
  status = codes "SUBMITTED";
  submitted_at = some 10;
  grade = none;
  feedback = none;
}

abbrev scan : File
scan = record {
  id = codes "f";
  submission_id = codes "w";
  name = codes "a.pdf";
  size_kb = 1;
  relative_path = some (codes "p");
  deleted_at = none;
}

abbrev upload : Upload
upload = record {
  id = codes "x";
  user_id = codes "ub";
  storage_key = codes "q";
  file_name = codes "b.pdf";
  size_bytes = 10;
  status = waiting;
  expires_at = 90;
  consumed_at = none;
  consumed_by = none;
}

abbrev in_team : Member
in_team = record {
  group_id = codes "g";
  subject_id = codes "m";
  student_id = codes "ua";
  role = leader;
  status = present;
}

abbrev class : Store
class = record {
  users = [];
  students = ann ∷ ben ∷ [];
  teachers = record { id = codes "t"; user_id = codes "ut" } ∷ [];
  subjects = maths ∷ [];
  enrollments =
      record { student_id = codes "pa"; subject_id = codes "m"; section_id = some (codes "s") }
      ∷ record { student_id = codes "pb"; subject_id = codes "m"; section_id = some (codes "s") }
      ∷ [];
  groups = team ∷ [];
  members = in_team ∷ [];
  tasks = task ∷ [];
  submissions = essay ∷ [];
  files = scan ∷ [];
  uploads = upload ∷ [];
  events = [];
  audits = [];
}

-- Only the last draw of the five is new.
abbrev draws : ℕ → Draw
draws left =
    if left == 0
    then record { id = codes "h"; bytes = 1 ∷ [] }
    else record { id = codes "g"; bytes = [] }

abbrev handin : Handin
handin = record {
  activity_id = codes "k";
  title = none;
  group_id = none;
  links = [];
  link = none;
  files =
      record { upload_id = codes "x"; name = codes "b.pdf"; size_kb = 9; relative_path = none }
      ∷ [];
}

join_group_by_code-is_overfull_example :
    is_overfull (codes "g") (
      final (
        join_group_by_code ⦃t = ascii_only⦄ class
          (some (codes "prj-a"))
          (some (codes "m"))
          (some (codes "ub"))
          class))
    ≡ false
unfolding text_eq
join_group_by_code-is_overfull_example =
    join_group_by_code-is_overfull ⦃t = ascii_only⦄ (codes "g") class (some (codes "prj-a"))
      (some (codes "m")) (some (codes "ub")) class refl

create_group-memberships_example :
    memberships
      (codes "m")
      (codes "ub")
      (final (create_group (codes "m") (codes "New") (some (codes "ub")) draws class))
    ≤ 1
unfolding text_eq
create_group-memberships_example =
    create_group-memberships (codes "m") (codes "ub") (codes "m") (codes "New") (some (codes "ub"))
      draws class (omega arith)

join_locked-memberships_example :
    memberships (codes "m") (codes "ub") (final (join_locked (codes "g") (codes "ub") class)) ≤ 1
unfolding text_eq
join_locked-memberships_example =
    join_locked-memberships (codes "m") (codes "ub") (codes "g") (codes "ub") class (omega arith)

create_attempts-succeeded_example :
    succeeded (create_attempts maths ben (codes "m") (codes "New") (codes "ub") 5 draws class)
    ≡ true
unfolding new_group text_eq build_invite_code
create_attempts-succeeded_example =
    create_attempts-succeeded maths ben (codes "m") (codes "New") (codes "ub") draws 5 0 class
      (omega arith) refl refl

abbrev made : Group
made = new_group maths ben (codes "m") (codes "New") (codes "ub") (draws 0)

abbrev with_made : Store
with_made = final (create_attempts maths ben (codes "m") (codes "New") (codes "ub") 5 draws class)

-- The invite code in lower case, after a blank.
abbrev typed : Text
typed = codes " " ++ to_lower ⦃t = ascii_only⦄ made.invite_code

create_attempts-join_prechecks_example :
    join_prechecks ⦃t = ascii_only⦄ typed (codes "m") (codes "ua") with_made
    ≡ check_joinable made (codes "ua") with_made
unfolding create_attempts new_group text_eq build_invite_code to_lower to_upper trim
create_attempts-join_prechecks_example =
    create_attempts-join_prechecks maths ben (codes "m") (codes "New") (codes "ub") ⦃t = ascii_only⦄
      draws 5 made typed (codes "ua") class with_made refl refl

abbrev thinned : Store
thinned = final (remove_member admin (not_found "Only one.") team (codes "ua") class)

remove_member-is_short_example :
    (is_short (codes "g") thinned ≡ false)
    × ((thinned ≡ class)
        ⊎ ((next : Option Text) × (find_group (codes "g") thinned
              ≡ some (record team {
                leader_id = next;
                status =
                    if ltb
                      (count (is_in (codes "g")) thinned.members)
                      (min_size (find_subject (codes "m") class))
                    then pending
                    else team.status;
              }))))
unfolding text_eq
remove_member-is_short_example =
    remove_member-is_short (codes "g") admin (not_found "Only one.") team (codes "ua") class refl
      refl

assign_leader-leads_example :
    (find_group
        (codes "g")
        (final (assign_leader admin (not_found "Locked.") team (some (codes "ua")) class))
      ≡ some (record team { leader_id = some (codes "ua") }))
    × (count
          (is_other_leader (codes "g") (codes "ua"))
          (final (assign_leader admin (not_found "Locked.") team (some (codes "ua")) class)).members
        ≡ 0)
    × (1
        ≤ count
            (is_leading (codes "g") (codes "ua"))
            (final
              (assign_leader admin (not_found "Locked.") team (some (codes "ua")) class)).members)
unfolding text_eq assign_leader
assign_leader-leads_example =
    assign_leader-leads admin (not_found "Locked.") team (codes "ua") class refl refl

consume_pending_uploads-twice_example :
    succeeded (
      consume_pending_uploads 30
        (codes "x" ∷ [])
        (codes "ub")
        (codes "w2")
        (final (consume_pending_uploads 20 (codes "x" ∷ []) (codes "ub") (codes "w") class)))
    ≡ false
unfolding text_eq trim consume_pending_uploads
consume_pending_uploads-twice_example =
    consume_pending_uploads-twice 20 30 (codes "x" ∷ []) (codes "ub") (codes "w") (codes "w2") class
      (omega arith) refl refl

-- The lines that the submission of the second student goes through are run.
abbrev handed : Submission
handed = record {
  id = codes "n";
  task_id = codes "k";
  subject_id = codes "m";
  student_id = some (codes "ub");
  group_id = none;
  submitted_by = some (codes "ub");
  title = codes "Essay";
  status = codes "LATE";
  submitted_at = some 60;
  grade = none;
  feedback = some (codes "Submission received.");
}

abbrev after_handin : Store
after_handin = final (
    submit ⦃t = ascii_only⦄ (λ key. true) (codes "n") (λ i. codes "y") 60 handin (some (codes "ub"))
      class)

submit-status_example :
    (is_accepting 60 task ≡ true)
    × (((handed.status ≡ codes "LATE") × IsOverdue 60 task × (task.allow_late ≡ true))
        ⊎ ((handed.status ≡ codes "SUBMITTED") × ¬ IsOverdue 60 task))
unfolding text_eq trim submit to_lower to_upper underscore_spaces
submit-status_example =
    submit-status ⦃t = ascii_only⦄ (λ key. true) (codes "n") (λ i. codes "y") 60 handin (codes "ub")
      task handed class after_handin refl refl

abbrev verdict : Review.Verdict
verdict = record { status = some (codes "graded"); grade = some (some 90); feedback = none }

abbrev graded_essay : Submission
graded_essay = record essay { status = codes "GRADED"; grade = some 90 }

abbrev after_review : Store
after_review = final (review ⦃t = ascii_only⦄ (codes "w") verdict (some (codes "ut")) class)

review-can_transition_example :
    (is_reviewer
        (trim (nullish (some (codes "ut")) []))
        (find_submission (trim (codes "w")) class)
        class
      ≡ true)
    × (can_transition ⦃t = ascii_only⦄ (some essay.status) (some graded_essay.status) ≡ true)
    × (find_submission (codes "w") after_review ≡ some graded_essay)
    × ((not (text_eq graded_essay.status (status_text graded)) || is_some graded_essay.grade)
        ≡ true)
unfolding text_eq trim review to_upper underscore_spaces can_transition
review-can_transition_example =
    review-can_transition ⦃t = ascii_only⦄ (codes "w") verdict (some (codes "ut")) class
      after_review essay graded_essay refl refl

require_can_download-may_read_example :
    (is_file_at (trim (codes "f")) scan
      && may_read
          (normalize_role ⦃t = ascii_only⦄ (some (codes "teacher")))
          (trim (nullish (some (codes "ut")) []))
          scan
          class)
    ≡ true
unfolding text_eq trim to_upper require_can_download
require_can_download-may_read_example =
    require_can_download-may_read ⦃t = ascii_only⦄ (some (codes "ut")) (some (codes "teacher"))
      (codes "f") class scan refl refl
