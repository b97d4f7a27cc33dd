-- ===== src/Submission/Lifecycle/Reading.antt =====
-- Reading a status text.
use proj_track_official.Prelude.{◌≡◌, refl, some, [], ◌∷◌, ◌++◌, ap, ◌∙◌, ℕ}
use proj_track_official.Prelude.Text.{
  Text, codes, text_eq, IsBlank, trim, trim-padded, is_space, underscore_spaces, CaseTable,
  to_upper, falsy,
}
use proj_track_official.Submission.Lifecycle.{
  Status, draft, status_text, read_status, normalize_status,
}

falsy-append_solid :
    (before : Text) (c : ℕ) (s d : Text) → falsy (some (before ++ (c ∷ s))) d ≡ before ++ (c ∷ s)
falsy-append_solid [] c s d = refl
falsy-append_solid (b ∷ before) c s d = refl

falsy-status_text :
    (s : Status) (before after d : Text)
    → falsy (some (before ++ (status_text s ++ after))) d ≡ before ++ (status_text s ++ after)
falsy-status_text draft before after d = falsy-append_solid before _ _ d
falsy-status_text _ before after d = falsy-append_solid before _ _ d

trim-status_text :
    (s : Status) (before after : Text)
    → IsBlank before
    → IsBlank after
    → trim (before ++ (status_text s ++ after)) ≡ status_text s
unfolding is_space
trim-status_text draft before after hb ha =
    trim-padded before after (status_text draft) _ _ _ _ hb ha refl refl refl refl
trim-status_text s before after hb ha =
    trim-padded before after (status_text s) _ _ _ _ hb ha refl refl refl refl

read_status-status_text :
    ⦃t : CaseTable⦄ → (s : Status) → read_status (to_upper (underscore_spaces (status_text s))) ≡ s
unfolding read_status text_eq to_upper underscore_spaces
read_status-status_text draft = refl
read_status-status_text _ = refl

-- The text of a status, with any whitespace around it, is read as that status.
pub normalize_status-padded :
    ⦃t : CaseTable⦄
    → (s : Status) (before after : Text) → IsBlank before
    → IsBlank after
    → normalize_status (some (before ++ (status_text s ++ after))) ≡ s
unfolding normalize_status
normalize_status-padded s before after hb ha =
    ap (λ x. read_status (to_upper (underscore_spaces (trim x))))
      (falsy-status_text s before after (codes "DRAFT"))
    ∙ ap (λ x. read_status (to_upper (underscore_spaces x))) (trim-status_text s before after hb ha)
    ∙ read_status-status_text s

trim-status_text_alone : (s : Status) → trim (status_text s) ≡ status_text s
unfolding trim
trim-status_text_alone draft = refl
trim-status_text_alone _ = refl

-- What the services write back for a status reads as the same status.
pub normalize_status-status_text :
    ⦃t : CaseTable⦄ → (s : Status) → normalize_status (some (status_text s)) ≡ s
unfolding normalize_status text_eq to_upper underscore_spaces trim
normalize_status-status_text draft = refl
normalize_status-status_text _ = refl
