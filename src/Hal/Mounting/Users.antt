-- ===== src/Hal/Mounting/Users.antt =====
-- The use counts of the functions, and that mounting keeps them exact.
use real_time_system.Common.{
  ℕ, zero, suc, ◌+◌, ◌<◌, ◌≡◌, inl, inr, refl, ◌&&◌, Option, none, some, List, [], ◌∷◌, ltb, ◌==◌,
  if◌then◌else◌, length, arith, map, Option-cases, Bool-cases,
}
use real_time_system.Common.Int.{ℤ, pos, negsuc}
use real_time_system.Common.Names.{Name}
use real_time_system.Hal.Data.{HalData, Sizes, Funct, Entry, Thread}
use real_time_system.Hal.Pool.{shmalloc_dn}
use real_time_system.Hal.Sorted.{find_by_name}
use real_time_system.Hal.Structs.{fresh_entry, alloc_funct_entry_struct}
use real_time_system.Hal.Calls.{After, After-if}
use real_time_system.Hal.Mounting.{
  insertion_point, change_entries, add_user, list_add_after, take_call, entry_of, add_funct,
  mounted, add_funct_at, add_funct_to, add_found, find_thread, find_funct,
}

-- The number of entries that call the function at an offset: of one thread, and of all.
abbrev pub calls_in : ℕ → List Entry → ℕ
calls_in off [] = 0
calls_in off (e ∷ es) = (if e.funct_ptr == off then 1 else 0) + calls_in off es

abbrev pub calls_of : ℕ → List Thread → ℕ
calls_of off [] = 0
calls_of off (t ∷ ts) = calls_in off t.funct_list + calls_of off ts

-- The use count of each function is the number of entries that call it, and 0 is not the offset of
-- a function.
abbrev pub AreCounted : List Thread → List Funct → Type 0
AreCounted ts [] = Unit
AreCounted ts (f ∷ fs) = ((0 < f.off) × (f.users ≡ calls_of f.off ts)) × AreCounted ts fs

abbrev pub IsCounted : HalData → Type 0
IsCounted d = AreCounted d.thread_list d.funct_list

calls_in-list_add_after :
    (off k : ℕ) (x : Entry) (es : List Entry)
    → calls_in off (list_add_after k x es) ≡ calls_in off (x ∷ es)
unfolding list_add_after
calls_in-list_add_after off zero x es = refl
calls_in-list_add_after off (suc k) x [] = refl
calls_in-list_add_after off (suc k) x (e ∷ es) = ground (arith, calls_in-list_add_after off k x es)

pub calls_in-take_call :
    (off o : ℕ) (es rest : List Entry) (e : Entry)
    → take_call off es ≡ some (e, rest)
    → (e.funct_ptr ≡ off) × (calls_in o es ≡ calls_in o (e ∷ rest))
unfolding take_call
calls_in-take_call off o [] rest e h = cc
calls_in-take_call off o (x ∷ es) rest e h = elim (Bool-cases (x.funct_ptr == off)) [
  | inl y ↦ ground arith
  | inr n ↦ elim (Option-cases (take_call off es)) [
    | inl q ↦ ground arith
    | inr ((f, fs), q) ↦ ground (arith, calls_in-take_call off o es fs f q)
  ]
]

-- A change of one thread's entries changes the number of calls by as much.
pub calls_of-change_entries :
    (off : ℕ) (n : Name) (g : List Entry → List Entry) (ts : List Thread) (t : Thread)
    → find_by_name (λ (u : Thread). u.name) n ts ≡ some t
    → calls_of off (change_entries n g ts) + calls_in off t.funct_list
      ≡ calls_of off ts + calls_in off (g t.funct_list)
unfolding change_entries find_by_name
calls_of-change_entries off n g [] t e = cc
calls_of-change_entries off n g (u ∷ ts) t e = ground (arith, calls_of-change_entries off n g ts t)

pub AreCounted-map :
    (g : Funct → Funct) (ts ts' : List Thread) (fs : List Funct)
    → ((f : Funct)
        → 0 < f.off
        → f.users ≡ calls_of f.off ts
        → (0 < (g f).off) × ((g f).users ≡ calls_of (g f).off ts'))
    → AreCounted ts fs
    → AreCounted ts' (map g fs)
AreCounted-map g ts ts' [] h c = tt
AreCounted-map g ts ts' (f ∷ fs) h c = (h f c.0.0 c.0.1, AreCounted-map g ts ts' fs h c.1)

AreCounted-add :
    (off k : ℕ) (x : Entry) (n : Name) (ts : List Thread) (t : Thread) (fs : List Funct)
    → find_by_name (λ (u : Thread). u.name) n ts ≡ some t
    → x.funct_ptr ≡ off
    → AreCounted ts fs
    → AreCounted (change_entries n (list_add_after k x) ts) (map (add_user off) fs)
AreCounted-add off k x n ts t fs e p = AreCounted-map (add_user off) ts _ fs (λ f a b. ground (
  arith,
  calls_of-change_entries f.off n (list_add_after k x) ts t e,
  calls_in-list_add_after f.off k x t.funct_list,
))

fresh_keeps :
    (size : ℕ) (d d' : HalData) (e : Entry)
    → fresh_entry (shmalloc_dn size d) ≡ some (e, d')
    → (d'.thread_list ≡ d.thread_list) × (d'.funct_list ≡ d.funct_list)
unfolding shmalloc_dn
fresh_keeps size d d' e h = ground arith

alloc-keeps :
    (sizes : Sizes) (es : List Entry) (d d' : HalData) (e : Entry)
    → d.funct_entry_free ≡ es
    → alloc_funct_entry_struct sizes d ≡ some (e, d')
    → (d'.thread_list ≡ d.thread_list) × (d'.funct_list ≡ d.funct_list)
unfolding alloc_funct_entry_struct
alloc-keeps sizes [] d d' e q h =
    fresh_keeps sizes.of_entry d d' e (rw (q, alloc_funct_entry_struct) at h)
alloc-keeps sizes (x ∷ es) d d' e q h = ground arith

mounted-After :
    (f : Funct) (n : Name) (k : ℕ) (e : Entry) (d d' : HalData) (t : Thread)
    → find_by_name (λ (u : Thread). u.name) n d.thread_list ≡ some t
    → (d'.thread_list ≡ d.thread_list) × (d'.funct_list ≡ d.funct_list)
    → IsCounted d
    → After IsCounted (mounted f n k (some (e, d')))
mounted-After f n k e d d' t q (a, b) c =
    rw (a, b) (AreCounted-add f.off k (entry_of f e) n d.thread_list t d.funct_list q refl c)

add_funct_at-After :
    (sizes : Sizes) (f : Funct) (n : Name) (d : HalData) (k : Option ℕ) (t : Thread)
    → find_by_name (λ (u : Thread). u.name) n d.thread_list ≡ some t
    → IsCounted d
    → After IsCounted (add_funct_at sizes f n d k)
add_funct_at-After sizes f n d none t q c = c
add_funct_at-After sizes f n d (some k) t q c =
    elim (Option-cases (alloc_funct_entry_struct sizes d)) [
      | inl a ↦ rw a tt
      | inr ((e, d'), a) ↦
          rw a
            (mounted-After f n k e d d' t q (alloc-keeps sizes d.funct_entry_free d d' e refl a) c)
    ]

add_funct_to-After :
    (sizes : Sizes) (f : Funct) (n : Name) (position : ℤ) (d : HalData) (o : Option Thread)
    → find_thread n d ≡ o
    → IsCounted d
    → After IsCounted (add_funct_to sizes f n position d o)
add_funct_to-After sizes f n position d none q c = c
add_funct_to-After sizes f n position d (some t) q c =
    let k = insertion_point position (length t.funct_list) in
    After-if IsCounted d (ltb 0 f.uses_fp && t.uses_fp == 0) (add_funct_at sizes f n d k) c
      (add_funct_at-After sizes f n d k t q c)

add_found-After :
    (sizes : Sizes) (n : Name) (position : ℤ) (d : HalData) (o : Option Funct)
    → IsCounted d
    → After IsCounted (add_found sizes n position d o)
add_found-After sizes n position d none c = c
add_found-After sizes n position d (some f) c =
    let o = find_thread n d in
    After-if IsCounted d (ltb 0 f.users && f.reentrant == 0) (add_funct_to sizes f n position d o) c
      (add_funct_to-After sizes f n position d o refl c)

pub add_funct-IsCounted :
    (sizes : Sizes) (fname n : Option Name) (position : ℤ) (d : HalData)
    → IsCounted d
    → After IsCounted (add_funct sizes fname n position d)
unfolding add_funct
add_funct-IsCounted sizes fname n (pos zero) d c = c
add_funct-IsCounted sizes none n (pos (suc m)) d c = c
add_funct-IsCounted sizes none n (negsuc m) d c = c
add_funct-IsCounted sizes (some f) none (pos (suc m)) d c = c
add_funct-IsCounted sizes (some f) none (negsuc m) d c = c
add_funct-IsCounted sizes (some f) (some n) (pos (suc m)) d c =
    add_found-After sizes n (pos (suc m)) d (find_funct f d) c
add_funct-IsCounted sizes (some f) (some n) (negsuc m) d c =
    add_found-After sizes n (negsuc m) d (find_funct f d) c
