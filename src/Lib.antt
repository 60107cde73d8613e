-- ===== src/Lib.antt =====
-- A model of RealTimeSystem: a hardware abstraction layer (HAL) that runs the functions of its
-- components in periodic real-time threads, over a real-time interface (RTAPI) of tasks, mutexes and
-- shared memory on Linux.
--
-- How the parts interact. A client calls the functions of hal/hal_lib.c. They keep one block of shared
-- data, `hal_data`, with lists of components, parameters, functions and threads, under one mutex. The
-- block comes from rtapi/uspace_common.c, whose handles count their references. Every HAL thread is a
-- task of rtapi/uspace_rtapi_app.cpp, which runs `thread_task`: it calls the functions of the thread's
-- list and then waits for the next period. The example task is such a component: its user sends it
-- commands through shared memory, which one of its functions takes and its controller follows.
--
-- Files, each with the code that it is about:
--   Common/…         numbers, lists, names, return values and error numbers that the parts share; in
--                    Runs calls over a state, with `do`, and what holds after them
--   Rtapi/Shmem      rtapi/uspace_common.c and uspace_common.h: `rtapi_shmem_new`, `rtapi_shmem_getptr`,
--                    `rtapi_shmem_getstate` and `rtapi_shmem_delete` on the array of 64 handles; in
--                    Walk what a call finds, in Table what holds between calls, in Contract what
--                    a handle promises; in Uuid `rtapi_init` and `rtapi_exit`, with the ids in Uuid/Ids
--                    and what stays mapped in Uuid/Mapped
--   Rtapi/Timespec   rtapi/rtapi_uspace.h and uspace_rtapi_app.cpp: times
--   Rtapi/Priority   rtapi/uspace_rtapi_app.cpp: priorities
--   Rtapi/Mutex      rtapi/rtapi_bitops.h and rtapi_mutex.h; in Threads any number of threads
--   Rtapi/Clock      rtapi/uspace_rtapi_app.cpp: `clock_set_period` and `rtapi_delay`
--   Rtapi/Task       rtapi/uspace_rtapi_app.cpp and rtapi_uspace.h: the table of 64 tasks; in
--                    Slots and Lifecycle the diagram of states, in Starting a new task, in Deleting and
--                    Started `task_delete`, in Wait the parts of `Posix::wait`, in Waiting the whole
--                    with its sleep, in Pausing a thread with its control side, in Cycle the
--                    length of a period
--   Hal/Data         hal/hal_priv.h and hal/hal.h: the structures
--   Hal/Pool         hal/hal_lib.c: `shmalloc_up` and `shmalloc_dn`; in Blocks what they hand out
--   Hal/Structs      hal/hal_lib.c: the alloc_… and free_… functions of structures
--   Hal/Sorted       hal/hal_lib.c: lists in order of names
--   Hal/Calls        what the calls have in common: the NULL test, the lock bits and the mutex
--   Hal/Lifecycle    hal/hal_lib.c: `init_hal_data`, `hal_start_threads`, `hal_stop_threads`,
--                    `hal_set_lock`, `hal_get_lock`, `hal_get_state`
--   Hal/Comps        hal/hal_lib.c: `hal_init`, `hal_exit`, `hal_ready` and their like
--   Hal/Mounting     hal/hal_lib.c: `hal_add_funct_to_thread` and `hal_del_funct_from_thread`; in
--                    Starving the lack of memory for an entry
--   Hal/Threads      hal/hal_lib.c: `free_thread_struct`, `hal_thread_delete`, the loop of
--                    `hal_app_exit`; in Create `hal_create_thread`
--   Hal/Registry     what the calls promise that enter a structure into a list in order of names
--   Hal/Params       hal/hal_lib.c: `hal_param_new`
--   Hal/Pins         hal/hal_lib.c: `hal_pin_new` and `hal_pin_newf`
--   Hal/Functs       hal/hal_lib.c: `hal_export_funct`
--   Hal/Tidy         rows of calls that register pins, parameters and functions
--   Hal/Cycle        hal/hal_lib.c: one pass of `thread_task`
--   Hal/Stats        hal/hal_lib.c: `hal_get_stats`
--   Hal/App          hal/hal_lib.c: the HAL of a process with its shared memory: `hal_app_main`,
--                    `hal_app_exit` and the whole of `hal_init`
--   ExampleTask/Controller  ExampleTask/funct_control.c: `taskController`
--   ExampleTask/Channel  ExampleTask/operate.cpp: `send_command`; ExampleTask/funct_command.c:
--                    `taskCommandHandler`
--   ExampleTask/Setup  ExampleTask/task.c: `task_thread_main` and `task_thread_exit`, in Main, with the
--                    names in Texts; in Main/Phases the calls that a set-up makes, in Main/Returned what has
--                    come before a return of 0
--   ExampleTask/Guard  ExampleTask/operate.cpp: `ExampleTaskGuard`
--   Main             main/taskmain.cpp: the start of the program, its signal handler and its end
-- The modules called Tests run the definitions on small inputs.
--
-- How state and errors are modelled. A function of the program has its name here and takes the state
-- that it changes as an argument. A negative return value is `err` with the errno constant. A call that
-- may spin or is undefined gives an `Outcome`: `done`, `hang` or `fault`. A pointer into shared memory
-- is its offset. Names are lists of bytes. Integers of the program that can be negative are ℤ over the
-- native numbers, the others are natural numbers; the wrap of an unsigned long and the casts to 32 bits
-- and to unsigned char are written out, and sums of ints are taken not to overflow. What the operating
-- system answers is an argument of the call (`ShmOs`, `ThreadOs`, the ends of the priorities, the
-- readings of the clock), and so is what a process finds in shared memory that it maps for the first time.
-- In Hal/Comps and Hal/Threads the id that rtapi_init gives is an argument; Hal/App and
-- ExampleTask/Setup take it from the modules of the process. What stands in the memory of the HAL where
-- no call has written yet is an argument too (`Unset`), since a segment that is mapped again holds what a
-- process before left there. The pointer that `hal_pin_new` is given is an address that the process can
-- read, or none.
--
-- Bounds and fuel. The loop of `rtapi_timespec_advance` has one round of fuel for each whole second,
-- and ends by its test. The retries of `shmget` are the 5 of the code. All other loops run over lists.
-- The loop of `rtapi_mutex_get` never ends if the calling process holds the mutex itself; between
-- threads it is a row of steps in Rtapi/Mutex/Threads.
--
-- Not modelled: `hal_export_functfv`, which reads variables that nothing sets; the floating-point
-- products of `taskController` and of `taskSetCycleTime`; the rest of the thread wrapper, the choice of
-- a processor and the start of the real-time process, which are calls of the system; the messages, the
-- timer and the measurement of the loop of main/, and the clocks of time/, which are output and floating
-- point; the bodies of
-- `list_init_entry`, `task_print_hal_status` and `task_print_shmem_state`, which the repository does not
-- hold.
pub mod Common
pub mod Rtapi
pub mod Hal
pub mod ExampleTask
pub mod Main
