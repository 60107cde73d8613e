-- ===== src/Hal/Mounting/Unmounting.antt =====
-- Unmounting keeps the use counts of the functions exact.
use mathlib.Core.Path.{subst}
use real_time_system.Common.{
  ℕ, ◌<◌, ◌≡◌, refl, sym, Option, none, some, List, [], ◌∷◌, ltb, ◌==◌, if◌then◌else◌, arith, map,
}
use real_time_system.Common.Names.{Name}
use real_time_system.Hal.Data.{HalData, Funct, Entry, Thread}
use real_time_system.Hal.Sorted.{find_by_name}
use real_time_system.Hal.Structs.{free_funct_entry_struct, drop_user}
use real_time_system.Hal.Calls.{After, After-if}
use real_time_system.Hal.Mounting.{
  change_entries, take_call, del_funct, find_thread, find_funct, unmounted, del_funct_from,
  del_found,
}
use real_time_system.Hal.Mounting.Users.{
  calls_of, AreCounted, IsCounted, calls_in-take_call, calls_of-change_entries, AreCounted-map,
}

AreCounted-del :
    (off : ℕ) (e : Entry) (rest : List Entry) (n : Name) (ts : List Thread) (t : Thread)
    (fs : List Funct)
    → find_by_name (λ (u : Thread). u.name) n ts ≡ some t
    → take_call off t.funct_list ≡ some (e, rest)
    → AreCounted ts fs
    → AreCounted (change_entries n (λ _. rest) ts) (map (drop_user off) fs)
AreCounted-del off e rest n ts t fs q h = AreCounted-map (drop_user off) ts _ fs (λ f a b. ground (
  arith,
  calls_of-change_entries f.off n (λ _. rest) ts t q,
  calls_in-take_call off f.off t.funct_list rest e h,
))

drop_if :
    (e : Entry) (off : ℕ) (fs : List Funct)
    → e.funct_ptr ≡ off
    → 0 < off
    → (if ltb 0 e.funct_ptr then map (drop_user e.funct_ptr) fs else fs) ≡ map (drop_user off) fs
drop_if e off fs q h = ground (arith, q, h)

unmounted-After :
    (f : Funct) (n : Name) (d : HalData) (t : Thread) (o : Option (Entry × List Entry))
    → find_thread n d ≡ some t
    → take_call f.off t.funct_list ≡ o
    → 0 < f.off
    → IsCounted d
    → After IsCounted (unmounted n d o)
unfolding free_funct_entry_struct
unmounted-After f n d t none q h b c = c
unmounted-After f n d t (some (e, rest)) q h b c =
    let at = (calls_in-take_call f.off 0 t.funct_list rest e h).0 in
    subst (AreCounted (change_entries n (λ _. rest) d.thread_list))
      (sym (drop_if e f.off d.funct_list at b))
      (AreCounted-del f.off e rest n d.thread_list t d.funct_list q h c)

pub found-AreCounted :
    (ts : List Thread) (fs : List Funct) (n : Name) (f : Funct)
    → find_by_name (λ (g : Funct). g.name) n fs ≡ some f
    → AreCounted ts fs
    → (0 < f.off) × (f.users ≡ calls_of f.off ts)
unfolding find_by_name
found-AreCounted ts [] n f q c = cc
found-AreCounted ts (g ∷ fs) n f q c = ground (arith, found-AreCounted ts fs n f, c.1, c.0)

del_funct_from-After :
    (f : Funct) (n : Name) (d : HalData) (o : Option Thread)
    → find_thread n d ≡ o
    → 0 < f.off
    → IsCounted d
    → After IsCounted (del_funct_from f n d o)
del_funct_from-After f n d none q b c = c
del_funct_from-After f n d (some t) q b c = unmounted-After f n d t _ q refl b c

del_found-After :
    (fname n : Name) (d : HalData) (o : Option Funct)
    → find_funct fname d ≡ o
    → IsCounted d
    → After IsCounted (del_found n d o)
del_found-After fname n d none q c = c
del_found-After fname n d (some f) q c =
    let o = find_thread n d in
    After-if IsCounted d (f.users == 0) (del_funct_from f n d o) c (
      del_funct_from-After f n d o refl (found-AreCounted d.thread_list d.funct_list fname f q c).0
        c)

pub del_funct-IsCounted :
    (fname n : Option Name) (d : HalData) → IsCounted d → After IsCounted (del_funct fname n d)
unfolding del_funct
del_funct-IsCounted none n d c = c
del_funct-IsCounted (some f) none d c = c
del_funct-IsCounted (some f) (some n) d c = del_found-After f n d _ refl c
