-- ===== src/Sidebar/Examples.antt =====
-- Texts of the sidebar at some inputs.
use prettymux.Prelude.{◌≡◌, refl, true, some}
use prettymux.Prelude.Int.{pos}
use prettymux.Prelude.Text.{codes}
use prettymux.Instance.Nested.{digits}
use prettymux.Sidebar.{
  compact_cwd, build_progress_section, build_structure_indicator_section, format_status,
}

-- A folder beside the home folder is shown as one inside it.
beside_home : compact_cwd (some (codes "/home/ann")) (codes "/home/anna/x") 48 ≡ codes "~a/x"
unfolding compact_cwd
beside_home = refl

outside_home :
    compact_cwd (some (codes "/home/ann")) (codes "/var/lib/containers/storage/volumes/") 48
    ≡ codes "~/.../volumes/"
unfolding compact_cwd
outside_home = refl

half_done : (build_progress_section (pos 1) (pos 50) true).text ≡ codes "p [##--] 50%"
unfolding build_progress_section digits
half_done = refl

columns : (build_structure_indicator_section true (pos 3) (pos 5) true).text ≡ codes "C3 T5"
unfolding build_structure_indicator_section digits
columns = refl

one_pane : format_status (pos 1) (pos 4) ≡ codes "4 tabs"
unfolding format_status digits
one_pane = refl
