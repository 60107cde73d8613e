-- ===== src/Hal/Mounting/Starving.antt =====
-- The only way in which `hal_add_funct_to_thread` is undefined: there is no memory for the entry.
use real_time_system.Common.{
  ℕ, zero, suc, ◌≡◌, ◌≢◌, inl, inr, refl, Bool, true, false, ◌&&◌, Option, none, some, Option-cases,
  List, [], ◌∷◌, ltb, ◌==◌, if◌then◌else◌, length, arith, einval, Result, err, Outcome, done, fault,
}
use real_time_system.Common.Int.{ℤ, pos, negsuc}
use real_time_system.Common.Names.{Name}
use real_time_system.Hal.Data.{HalData, Sizes, Funct, Entry, Thread}
use real_time_system.Hal.Pool.{shmalloc_dn}
use real_time_system.Hal.Structs.{alloc_funct_entry_struct}
use real_time_system.Hal.Mounting.{
  insertion_point, take_call, add_funct_at, add_funct_to, add_found, add_funct, unmounted,
  del_funct_from, del_found, del_funct, find_thread, find_funct,
}

-- No structure for an entry is on the free list, and the shared memory has no room for one.
abbrev pub LacksEntry : Sizes → HalData → Type 0
LacksEntry sizes d = (d.funct_entry_free ≡ []) × ((shmalloc_dn sizes.of_entry d).0 ≡ none)

-- The names of a function and of a thread are given, and there is no entry for them.
abbrev pub Misses : Sizes → Option Name → Option Name → HalData → Type 0
Misses sizes (some f) (some n) d = LacksEntry sizes d
Misses sizes _ _ d = ⊥

lacks_entry :
    (sizes : Sizes) (es : List Entry) (d : HalData)
    → d.funct_entry_free ≡ es
    → alloc_funct_entry_struct sizes d ≡ none
    → LacksEntry sizes d
unfolding alloc_funct_entry_struct
lacks_entry sizes [] d q a = (q, ground (arith, q, a))
lacks_entry sizes (e ∷ es) d q a = ground (arith, q, a)

add_funct_at_starves :
    (sizes : Sizes) (f : Funct) (n : Name) (d : HalData) (k : Option ℕ)
    → add_funct_at sizes f n d k ≡ fault
    → LacksEntry sizes d
add_funct_at_starves sizes f n d none e = absurd (cc e)
add_funct_at_starves sizes f n d (some k) e =
    elim (Option-cases (alloc_funct_entry_struct sizes d)) [
      | inl a ↦ lacks_entry sizes d.funct_entry_free d refl a
      | inr ((x, d1), a) ↦ absurd (ground (arith, a, e))
    ]

if_fault :
    (P : Type 0) (c : Bool) (d : HalData) (o : Outcome (Result ℕ × HalData))
    → (o ≡ fault → P)
    → (if c then done (err einval, d) else o) ≡ fault
    → P
if_fault P true d o f e = absurd (cc e)
if_fault P false d o f e = f e

add_funct_to_starves :
    (sizes : Sizes) (f : Funct) (n : Name) (position : ℤ) (d : HalData) (o : Option Thread)
    → add_funct_to sizes f n position d o ≡ fault
    → LacksEntry sizes d
add_funct_to_starves sizes f n position d none e = absurd (cc e)
add_funct_to_starves sizes f n position d (some t) e =
    let k = insertion_point position (length t.funct_list) in
    if_fault (LacksEntry sizes d) (ltb 0 f.uses_fp && t.uses_fp == 0) d (add_funct_at sizes f n d k)
      (add_funct_at_starves sizes f n d k) e

add_found_starves :
    (sizes : Sizes) (n : Name) (position : ℤ) (d : HalData) (o : Option Funct)
    → add_found sizes n position d o ≡ fault
    → LacksEntry sizes d
add_found_starves sizes n position d none e = absurd (cc e)
add_found_starves sizes n position d (some f) e =
    if_fault (LacksEntry sizes d) (ltb 0 f.users && f.reentrant == 0) d
      (add_funct_to sizes f n position d (find_thread n d))
      (add_funct_to_starves sizes f n position d (find_thread n d)) e

pub add_starves :
    (sizes : Sizes) (f n : Option Name) (position : ℤ) (d : HalData)
    → add_funct sizes f n position d ≡ fault
    → Misses sizes f n d
unfolding add_funct
add_starves sizes none n (pos zero) d e = absurd (cc e)
add_starves sizes none n (pos (suc m)) d e = absurd (cc e)
add_starves sizes none n (negsuc m) d e = absurd (cc e)
add_starves sizes (some f) none (pos zero) d e = absurd (cc e)
add_starves sizes (some f) none (pos (suc m)) d e = absurd (cc e)
add_starves sizes (some f) none (negsuc m) d e = absurd (cc e)
add_starves sizes (some f) (some n) (pos zero) d e = absurd (cc e)
add_starves sizes (some f) (some n) (pos (suc m)) d e =
    add_found_starves sizes n (pos (suc m)) d (find_funct f d) e
add_starves sizes (some f) (some n) (negsuc m) d e =
    add_found_starves sizes n (negsuc m) d (find_funct f d) e

unmounted_defined :
    (n : Name) (d : HalData) (o : Option (Entry × List Entry)) → unmounted n d o ≢ fault
unmounted_defined n d none e = cc e
unmounted_defined n d (some (x, es)) e = cc e

del_from_defined :
    (f : Funct) (n : Name) (d : HalData) (o : Option Thread) → del_funct_from f n d o ≢ fault
del_from_defined f n d none e = cc e
del_from_defined f n d (some t) e = unmounted_defined n d (take_call f.off t.funct_list) e

del_found_defined : (n : Name) (d : HalData) (o : Option Funct) → del_found n d o ≢ fault
del_found_defined n d none e = cc e
del_found_defined n d (some f) e =
    if_fault ⊥ (f.users == 0) d (del_funct_from f n d (find_thread n d))
      (del_from_defined f n d (find_thread n d)) e

pub del_defined : (f n : Option Name) (d : HalData) → del_funct f n d ≢ fault
unfolding del_funct
del_defined none n d e = cc e
del_defined (some f) none d e = cc e
del_defined (some f) (some n) d e = del_found_defined n d (find_funct f d) e

-- The mutex plays no part in what memory there is.
pub starved :
    (sizes : Sizes) (f n : Option Name) (d : HalData)
    → Misses sizes f n (record d { mutex = true })
    → Misses sizes f n d
unfolding shmalloc_dn
starved sizes none n d l = l
starved sizes (some f) none d l = l
starved sizes (some f) (some n) d l = (l.0, ground (arith, l.1))
