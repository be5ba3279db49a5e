-- ===== src/Desktop/Grouping/Examples.antt =====
-- Tests of the message list.
use qsl.Prelude.{◌≡◌, refl, List, [], ◌∷◌, Option, none, some, Text, codes, All}
use mathlib.Core.List.{flatten, map}
use qsl.Desktop.Grouping.{single, thread, group_by_thread}
use qsl.Desktop.Grouping.Runs.{members, IsItem, AreApart, group_by_thread-runs}

-- A header is its id and its thread.
abbrev Header : Type 0
Header = Text × Option Text

abbrev in_thread : Header → Option Text
in_thread h = h.1

abbrev page : List Header
page =
    (codes "m1", some (codes "t1"))
    ∷ (codes "m2", some (codes "t1"))
    ∷ (codes "m3", none)
    ∷ (codes "m4", none)
    ∷ []

grouped :
    group_by_thread in_thread page
    ≡ thread
        (codes "m1", some (codes "t1"))
        ((codes "m1", some (codes "t1")) ∷ (codes "m2", some (codes "t1")) ∷ [])
      ∷ single (codes "m3", none)
      ∷ single (codes "m4", none)
      ∷ []
unfolding group_by_thread qsl.Prelude.eq_text
grouped = refl

group_by_thread-runs_example :
    (flatten (map members (group_by_thread in_thread page)) ≡ page)
    × All (IsItem in_thread) (group_by_thread in_thread page)
    × AreApart in_thread (group_by_thread in_thread page)
group_by_thread-runs_example = group_by_thread-runs in_thread page
