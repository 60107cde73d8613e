-- ===== src/Hal/Sorted/Tests.antt =====
-- hal/hal_lib.c: the lists in order of names on small inputs.
use real_time_system.Common.{◌≡◌, refl, some, List, [], ◌∷◌}
use real_time_system.Common.Names.{Name}
use real_time_system.Hal.Sorted.{insert_sorted}

abbrev itself : Name → Name
itself n = n

-- "a" and "c", and "b" between them
abbrev names : List Name
names = (97 ∷ []) ∷ (99 ∷ []) ∷ []

abbrev more_names : List Name
more_names = (97 ∷ []) ∷ (98 ∷ []) ∷ (99 ∷ []) ∷ []

inserted : insert_sorted itself (98 ∷ []) names ≡ some more_names
unfolding insert_sorted
inserted = refl
