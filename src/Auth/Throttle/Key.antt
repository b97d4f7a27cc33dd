-- ===== src/Auth/Throttle/Key.antt =====
-- The keys under which attempts are counted.
use proj_track_official.Prelude.{ℕ, ◌≡◌, refl, false, Option, [], ◌∷◌, List}
use proj_track_official.Prelude.Text.{Text, is_empty, CaseTable, trim, to_lower}
use proj_track_official.Auth.Throttle.{Action, login, build_key, join_bar}

join_bar_solid : (c : ℕ) (s : Text) (ts : List Text) → is_empty (join_bar ((c ∷ s) ∷ ts)) ≡ false
unfolding join_bar
join_bar_solid c s [] = refl
join_bar_solid c s (t ∷ ts) = refl

-- A key is never empty, whatever the identifier and the address are, so the operations never take
-- their early return.
pub build_key-ne-empty :
    ⦃t : CaseTable⦄
    → (a : Action) (identifier ip : Option Text) → is_empty (build_key a identifier ip) ≡ false
unfolding build_key trim to_lower
build_key-ne-empty login i ip = join_bar_solid _ _ _
build_key-ne-empty _ i ip = join_bar_solid _ _ _
