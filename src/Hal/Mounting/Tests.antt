-- ===== src/Hal/Mounting/Tests.antt =====
-- hal/hal_lib.c: functions in threads, on small inputs.
use real_time_system.Common.{◌≡◌, refl, some, List, [], ◌∷◌, err, einval, done, arith, get_elem?}
use real_time_system.Common.Int.{pos, negsuc}
use real_time_system.Hal.Data.{Entry}
use real_time_system.Hal.Fixture.{sizes, mounted_data, funct_f, entry_f}
use real_time_system.Hal.Sorted.{find_by_name}
use real_time_system.Hal.Mounting.{
  hal_add_funct_to_thread, find_funct, insertion_point, list_add_after, steps,
}
use real_time_system.Hal.Mounting.Position.{index_of, add-IsAt}
use real_time_system.Hal.Mounting.Calls.{
  Call, add, del, run, EndsReady, run-EndsReady, nonreentrant_once,
}

abbrev moves : List Call
moves =
    del (some (102 ∷ [])) (some (116 ∷ [])) ∷ add (some (102 ∷ [])) (some (116 ∷ [])) (pos 1) ∷ []

run-EndsReady_example :
    EndsReady sizes moves (some mounted_data) (run sizes moves (some mounted_data))
run-EndsReady_example =
    run-EndsReady sizes moves (some mounted_data) (refl, ((omega arith, refl), tt))

found_f : find_funct (102 ∷ []) mounted_data ≡ some funct_f
unfolding find_by_name
found_f = refl

nonreentrant_once_example :
    hal_add_funct_to_thread sizes (some (102 ∷ [])) (some (116 ∷ [])) (pos 1) (some mounted_data)
    ≡ done (err einval, some mounted_data)
nonreentrant_once_example =
    nonreentrant_once sizes (102 ∷ []) (116 ∷ []) (pos 1) mounted_data funct_f
      (refl, ((omega arith, refl), tt)) found_f refl (omega arith)

abbrev entry_g : Entry
entry_g = record { off = 640; arg = 3; funct = 4100; funct_ptr = 520 }

front_is_0 : insertion_point (negsuc 1) 1 ≡ some 0
unfolding insertion_point steps
front_is_0 = refl

add-IsAt_example :
    get_elem? (list_add_after 0 entry_g (entry_f ∷ [])) (index_of (negsuc 1) 2) ≡ some entry_g
add-IsAt_example = add-IsAt (negsuc 1) entry_g (entry_f ∷ []) 0 front_is_0
