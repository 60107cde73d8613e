-- ===== src/Hal/App.antt =====
-- hal/hal_lib.c: the HAL of a process with its shared memory (`hal_app_main`, `hal_app_exit` and
-- `hal_init` with the first call, which maps the memory).
pub mod Teardown
pub mod Start
mod Tests
use real_time_system.Common.{
  ℕ, Bool, true, false, Option, none, some, List, get_elem?, ltb, if◌then◌else◌, length, einval,
  Result, ok, err, Outcome, done, hang, fault,
}
use real_time_system.Common.Int.{ℤ, pos, eqb_ℤ}
use real_time_system.Common.Names.{Name}
use real_time_system.Common.Codes.{as_int}
use real_time_system.Common.Runs.{Run}
use real_time_system.Rtapi.Task.{Slot}
use real_time_system.Rtapi.Shmem.{
  Handle, ShmOs, rtapi_shmem_new, rtapi_shmem_getptr, rtapi_shmem_delete,
}
use real_time_system.Rtapi.Shmem.Uuid.{
  Modules, Found, is_first, is_mapped_at, rtapi_init, rtapi_exit,
}
use real_time_system.Hal.Data.{
  HalData, Sizes, initializing, shutting_down, destroyed, hal_size, hal_name_len,
}
use real_time_system.Hal.Lifecycle.{init_hal_data}
use real_time_system.Hal.Comps.{hal_init, is_destroyed}
use real_time_system.Hal.Threads.{free_threads}

abbrev pub hal_key : ℕ
hal_key = 0x48414C32

-- The modules under the HAL, its static variables, and what they lead to.
pub record Process : Type 0 where
  pub modules : Modules
  pub lib_module_id : ℤ
  pub lib_mem_id : ℤ
  pub hal_shmem_base : ℕ
  pub hal : Option HalData
  pub slots : List Slot

-- What the calls are answered by the system, and what they find in memory that is mapped anew.
pub record Boot : Type 0 where
  pub sizes : Sizes
  pub pid : ℕ
  pub uuid_os : ShmOs
  pub memory_os : ShmOs
  pub exit_os : ShmOs
  pub uuid_found : Found
  pub found : HalData

abbrev pub Ran : Type 0
Ran = Outcome (Result ℕ × Process)

abbrev pub exited : Boot → ℤ → Process → Process
exited boot id p = record p { modules = (rtapi_exit boot.exit_os id p.modules).1 }

abbrev pub with_handles : List Handle → Process → Process
with_handles hs p = record p { modules = record p.modules { handles = hs } }

-- `rtapi_shmem_delete(lib_mem_id, lib_module_id)`
abbrev pub released : Boot → Process → Process
released boot p = with_handles (rtapi_shmem_delete boot.exit_os p.modules.handles p.lib_mem_id).1 p

abbrev pub gives_up : Boot → Process → Ran
gives_up boot p = done (err einval, exited boot p.lib_module_id p)

-- The content of the segment: that of the process, where it has it mapped already.
abbrev pub content : Boot → Bool → Option HalData → HalData
content boot true h = boot.found
content boot false none = boot.found
content boot false (some d) = d

abbrev pub mapped : ℕ → HalData → Process → Process
mapped mem d p = record p { hal_shmem_base = mem; hal = some d }

-- `hal_app_main`, from the inside out: after `init_hal_data`, after `rtapi_shmem_getptr`, after
-- `rtapi_shmem_new`, after `rtapi_init`.
abbrev pub main_ready : Boot → Process → Outcome (Result ℕ × HalData) → Ran
main_ready boot p (done (ok r, d)) = done (ok 0, record p { hal = some d })
main_ready boot p (done (err e, d)) = gives_up boot (released boot (record p { hal = some d }))
main_ready boot p hang = hang
main_ready boot p fault = fault

abbrev pub main_mapped : Boot → Bool → Process → Result ℕ → Ran
main_mapped boot first p (err e) = gives_up boot (released boot p)
main_mapped boot first p (ok mem) =
    let d = record (content boot first p.hal) { state = initializing; error_code = 0 } in
    main_ready boot (mapped mem d p) (init_hal_data boot.sizes boot.pid d)

abbrev pub main_opened : Boot → Process → Result ℕ × List Handle → Ran
main_opened boot p (err e, hs) =
    gives_up boot (with_handles hs (record p { lib_mem_id = as_int (err e) }))
main_opened boot p (ok n, hs) =
    main_mapped boot (is_first (get_elem? hs n)) (with_handles hs (record p { lib_mem_id = pos n }))
      (rtapi_shmem_getptr hs (pos n))

abbrev pub main_named : Boot → Process → Outcome (Result ℕ × Modules) → Ran
main_named boot p (done (err e, m)) =
    done (err einval, record p { modules = m; lib_module_id = as_int (err e) })
main_named boot p (done (ok id, m)) =
    main_opened boot (record p { modules = m; lib_module_id = pos id })
      (rtapi_shmem_new boot.memory_os hal_key hal_size m.handles)
main_named boot p hang = hang
main_named boot p fault = fault

unfoldable pub hal_app_main : Boot → Run Process (Result ℕ)
unfolding rtapi_init rtapi_exit init_hal_data
hal_app_main boot p = main_named boot p (rtapi_init boot.uuid_os boot.uuid_found p.modules)

-- `hal_init` until the memory is mapped. Unlike `hal_app_main` it keeps the memory when a step fails.
abbrev pub lib_ready : Boot → Process → Outcome (Result ℕ × HalData) → Ran
lib_ready boot p (done (ok r, d)) = done (ok 0, record p { hal = some d })
lib_ready boot p (done (err e, d)) = gives_up boot (record p { hal = some d })
lib_ready boot p hang = hang
lib_ready boot p fault = fault

abbrev pub lib_mapped : Boot → Bool → Process → Result ℕ → Ran
lib_mapped boot first p (err e) = gives_up boot p
lib_mapped boot first p (ok mem) =
    let d = content boot first p.hal in
    lib_ready boot (mapped mem d p) (init_hal_data boot.sizes boot.pid d)

abbrev pub lib_opened : Boot → Process → Result ℕ × List Handle → Ran
lib_opened boot p (err e, hs) =
    gives_up boot (with_handles hs (record p { lib_mem_id = as_int (err e) }))
lib_opened boot p (ok n, hs) =
    lib_mapped boot (is_first (get_elem? hs n)) (with_handles hs (record p { lib_mem_id = pos n }))
      (rtapi_shmem_getptr hs (pos n))

abbrev pub lib_named : Boot → Process → Outcome (Result ℕ × Modules) → Ran
lib_named boot p (done (err e, m)) =
    done (err einval, record p { modules = m; lib_module_id = as_int (err e) })
lib_named boot p (done (ok id, m)) =
    lib_opened boot (record p { modules = m; lib_module_id = pos id })
      (rtapi_shmem_new boot.memory_os hal_key hal_size m.handles)
lib_named boot p hang = hang
lib_named boot p fault = fault

abbrev pub is_torn_down : Option HalData → Bool
is_torn_down none = false
is_torn_down (some d) = is_destroyed d.state

unfoldable pub map_memory : Boot → Run Process (Result ℕ)
unfolding rtapi_init rtapi_exit init_hal_data
map_memory boot p =
    if eqb_ℤ p.lib_mem_id (pos 0)
    then if is_torn_down p.hal
      then done (err einval, p)
      else lib_named boot p (rtapi_init boot.uuid_os boot.uuid_found p.modules)
    else done (ok 0, p)

-- The component, once `rtapi_init` has given it an id, which a failure gives back.
abbrev pub component_made : Boot → ℕ → Process → Outcome (Result ℕ × HalData) → Ran
component_made boot id p (done (ok r, d)) = done (ok r, record p { hal = some d })
component_made boot id p (done (err e, d)) =
    done (err e, exited boot (pos id) (record p { hal = some d }))
component_made boot id p hang = hang
component_made boot id p fault = fault

abbrev pub component_numbered : Boot → Name → Process → Outcome (Result ℕ × Modules) → Ran
component_numbered boot name p (done (err e, m)) = done (err einval, record p { modules = m })
component_numbered boot name p (done (ok id, m)) = elim p.hal [
  | none ↦ fault
  | some d ↦
      component_made boot id (record p { modules = m })
        (hal_init boot.sizes p.hal_shmem_base (some name) (ok id) d)
]
component_numbered boot name p hang = hang
component_numbered boot name p fault = fault

-- `uuid_os` answers the call of `rtapi_init` for the component.
abbrev pub component_mapped : Boot → ShmOs → Name → Ran → Ran
component_mapped boot uuid_os name (done (err e, p)) = done (err e, p)
component_mapped boot uuid_os name (done (ok r, p)) =
    component_numbered boot name p (rtapi_init uuid_os boot.uuid_found p.modules)
component_mapped boot uuid_os name hang = hang
component_mapped boot uuid_os name fault = fault

unfoldable pub init_component : Boot → ShmOs → Option Name → Run Process (Result ℕ)
unfolding map_memory hal_init rtapi_init rtapi_exit
init_component boot uuid_os none p = done (err einval, p)
init_component boot uuid_os (some name) p =
    if ltb hal_name_len (length name)
    then done (err einval, p)
    else component_mapped boot uuid_os name (map_memory boot p)

-- The last write of `hal_app_exit`, into memory that is mapped or not. shmdt fails only where nothing is
-- mapped, so after a deletion the memory is gone in either case.
abbrev pub marked : Process → HalData → Outcome Process
marked p d =
    if is_mapped_at p.hal_shmem_base p.modules.handles
    then done (record p { hal = some (record d { state = destroyed }) })
    else fault

abbrev pub given_back : Boot → Process → Outcome (HalData × List Slot) → Outcome (HalData × Process)
given_back boot p (done (d, slots)) = done (
  record d { mutex = false },
  exited boot p.lib_module_id (released boot (record p { slots = slots })),
)
given_back boot p hang = hang
given_back boot p fault = fault

-- `hal_app_exit` between its guards and its last write.
unfoldable pub tear_down : Boot → Process → HalData → Outcome (HalData × Process)
unfolding free_threads rtapi_exit
tear_down boot p d =
    if d.mutex
    then hang
    else given_back boot p
        (free_threads d.thread_list (record d { state = shutting_down; mutex = true }) p.slots)

abbrev pub torn_down : Outcome (HalData × Process) → Outcome Process
torn_down (done (d, p)) = marked p d
torn_down hang = hang
torn_down fault = fault

unfoldable pub hal_app_exit : Boot → Process → Outcome Process
unfolding tear_down
hal_app_exit boot p = elim p.hal [
  | none ↦ done p
  | some d ↦ if is_destroyed d.state then done p else torn_down (tear_down boot p d)
]
