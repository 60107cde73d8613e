-- ===== src/Hal/App/Start.antt =====
-- What a successful `hal_app_main` leaves, and what a failed one leads to.
use real_time_system.Common.{
  ℕ, ◌≡◌, ◌≤◌, refl, ap, ◌∙◌, Bool, true, false, none, some, List, [], get_elem?, length,
  if◌then◌else◌, einval, Errno, Result, ok, err, Outcome, done, hang, fault, arith,
}
use real_time_system.Common.Int.{pos, eqb_ℤ}
use real_time_system.Common.Names.{Name}
use real_time_system.Common.Codes.{as_int}
use real_time_system.Rtapi.Shmem.{Handle, ShmOs, rtapi_shmem_new, rtapi_shmem_getptr}
use real_time_system.Rtapi.Shmem.Uuid.{Modules, is_first, rtapi_init}
use real_time_system.Hal.Data.{HalData, initializing, active, hal_size, hal_name_len}
use real_time_system.Hal.Lifecycle.{init_hal_data}
use real_time_system.Hal.App.{
  Process, Boot, Ran, hal_key, content, with_handles, exited, gives_up, mapped, main_ready,
  main_mapped, main_opened, main_named, hal_app_main, map_memory, component_mapped,
  component_numbered, init_component,
}

-- The HAL is up in the memory that the handle of the process leads to, and holds nothing yet.
abbrev pub IsUp : Boot → Process → Type 0
IsUp boot p =
    (d : HalData) × (n : ℕ) × (p.hal ≡ some d)
    × (p.lib_mem_id ≡ pos n)
    × (rtapi_shmem_getptr p.modules.handles (pos n) ≡ ok p.hal_shmem_base)
    × (d.state ≡ active)
    × (d.threads_running ≡ 0)
    × (d.mutex ≡ false)
    × (d.comp_list ≡ [])
    × (d.thread_list ≡ [])
    × (d.init_pid ≡ boot.pid)

abbrev pub Starts : Boot → Ran → Type 0
Starts boot (done (ok r, p)) = (r ≡ 0) × IsUp boot p
Starts boot (done (err e, p)) = e ≡ einval
Starts boot hang = Unit
Starts boot fault = Unit

module _ (boot : Boot) where
  ready-if :
      (p : Process) (b : Bool) (o : Outcome (Result ℕ × HalData))
      → Starts boot (main_ready boot p o)
      → Starts boot (main_ready boot p (if b then hang else o))
  ready-if p true o s = tt
  ready-if p false o s = s

  ready-Starts :
      (p : Process) (n mem : ℕ) (d : HalData)
      → p.lib_mem_id ≡ pos n
      → rtapi_shmem_getptr p.modules.handles (pos n) ≡ ok mem
      → Starts boot (main_ready boot (mapped mem d p) (init_hal_data boot.sizes boot.pid d))
  unfolding init_hal_data
  ready-Starts p n mem d i g =
      ready-if (mapped mem d p) d.mutex _
        (refl, (_, n, refl, i, g, refl, refl, refl, refl, refl, refl))

  mapped-Starts :
      (first : Bool) (p : Process) (n : ℕ) (r : Result ℕ)
      → p.lib_mem_id ≡ pos n
      → rtapi_shmem_getptr p.modules.handles (pos n) ≡ r
      → Starts boot (main_mapped boot first p r)
  mapped-Starts first p n (err e) i g = refl
  mapped-Starts first p n (ok mem) i g =
      ready-Starts p n mem
        (record (content boot first p.hal) { state = initializing; error_code = 0 }) i g

  opened-Starts : (p : Process) (r : Result ℕ × List Handle) → Starts boot (main_opened boot p r)
  opened-Starts p (err e, hs) = refl
  opened-Starts p (ok n, hs) =
      mapped-Starts (is_first (get_elem? hs n)) (with_handles hs (record p { lib_mem_id = pos n }))
        n (rtapi_shmem_getptr hs (pos n)) refl refl

  named-Starts :
      (p : Process) (o : Outcome (Result ℕ × Modules)) → Starts boot (main_named boot p o)
  named-Starts p (done (err e, m)) = refl
  named-Starts p (done (ok id, m)) =
      opened-Starts (record p { modules = m; lib_module_id = pos id })
        (rtapi_shmem_new boot.memory_os hal_key hal_size m.handles)
  named-Starts p hang = tt
  named-Starts p fault = tt

-- If `hal_app_main` returns, it returns 0 or -EINVAL. After 0 the handle `lib_mem_id` leads to the memory
-- at `hal_shmem_base`, and the HAL is there: ACTIVE, its threads stopped, its mutex free, without components
-- and threads, and marked with the process.
pub app_main-Starts : (boot : Boot) (p : Process) → Starts boot (hal_app_main boot p)
unfolding hal_app_main
app_main-Starts boot p = named-Starts boot p (rtapi_init boot.uuid_os boot.uuid_found p.modules)

-- A failure of the segment, and the process after it.
refused :
    (boot : Boot) (p : Process) (id : ℕ) (m : Modules) (e : Errno) (hs : List Handle)
    → rtapi_init boot.uuid_os boot.uuid_found p.modules ≡ done (ok id, m)
    → rtapi_shmem_new boot.memory_os hal_key hal_size m.handles ≡ (err e, hs)
    → hal_app_main boot p
      ≡ gives_up boot (
          with_handles hs
            (record p { modules = m; lib_module_id = pos id; lib_mem_id = as_int (err e) }))
unfolding hal_app_main
refused boot p id m e hs a b =
    ap (main_named boot p) a
    ∙ ap (main_opened boot (record p { modules = m; lib_module_id = pos id })) b

faults :
    (boot : Boot) (uuid_os : ShmOs) (name : Name) (p : Process) (id : ℕ) (m : Modules)
    → length name ≤ hal_name_len
    → eqb_ℤ p.lib_mem_id (pos 0) ≡ false
    → p.hal ≡ none
    → rtapi_init uuid_os boot.uuid_found p.modules ≡ done (ok id, m)
    → init_component boot uuid_os (some name) p ≡ fault
unfolding init_component map_memory
faults boot uuid_os name p id m l z h r =
    rw (z, if◌then◌else◌)
      (rw (r, component_mapped, component_numbered)
        (rw (h, component_numbered) (ground (arith, l))))

-- The process that `hal_app_main` leaves where the segment is refused: `lib_mem_id` holds the error.
abbrev pub after_refusal : Boot → Process → ℕ → Modules → Errno → List Handle → Process
after_refusal boot p id m e hs =
    let q =
      with_handles hs
        (record p { modules = m; lib_module_id = pos id; lib_mem_id = as_int (err e) }) in
    exited boot (pos id) q

-- Where `hal_app_main` has a module id, but the segment of the HAL is refused with an errno that is not 0,
-- the call returns -EINVAL. If the process then calls `hal_init` with a name of at most 47 bytes and
-- `rtapi_init` gives an id, the call takes the error for a handle, does not map the memory, and uses a NULL
-- pointer.
pub init-main_refused :
    (boot later : Boot) (uuid_os : ShmOs) (name : Name) (p : Process) (id id' : ℕ) (m m' : Modules)
    (e : Errno) (hs : List Handle)
    → rtapi_init boot.uuid_os boot.uuid_found p.modules ≡ done (ok id, m)
    → rtapi_shmem_new boot.memory_os hal_key hal_size m.handles ≡ (err e, hs)
    → eqb_ℤ (as_int (err e)) (pos 0) ≡ false
    → p.hal ≡ none
    → length name ≤ hal_name_len
    → rtapi_init uuid_os later.uuid_found (after_refusal boot p id m e hs).modules
      ≡ done (ok id', m')
    → (hal_app_main boot p ≡ done (err einval, after_refusal boot p id m e hs))
      × (init_component later uuid_os (some name) (after_refusal boot p id m e hs) ≡ fault)
init-main_refused boot later uuid_os name p id id' m m' e hs a b z h l r = (
  refused boot p id m e hs a b,
  faults later uuid_os name (after_refusal boot p id m e hs) id' m' l z h r,
)
