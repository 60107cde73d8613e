-- ===== src/Hal/Pool/Blocks.antt =====
-- hal/hal_lib.c: the blocks that the two allocators hand out.
use real_time_system.Common.{
  ℕ, ◌+◌, ◌-◌, ◌%◌, ◌≤◌, ◌≡◌, ◌⊎◌, inl, inr, Option, none, some, List, [], ◌∷◌, arith, Option-cases,
}
use real_time_system.Hal.Data.{HalData, hal_size}
use real_time_system.Hal.Pool.{shmalloc_up, shmalloc_dn, align_up, align_down}

-- The free part lies behind the header, inside the block.
pub record IsPool (header : ℕ) (d : HalData) : Type 0 where
  pub behind_header : header ≤ d.shmem_bot
  pub ordered : d.shmem_bot ≤ d.shmem_top
  pub in_block : d.shmem_top ≤ hal_size

-- Aligned as the size asks.
abbrev pub IsAligned : ℕ → ℕ → Type 0
IsAligned size off =
    (16 ≤ size → off % 16 ≡ 0)
    × (8 ≤ size → off % 8 ≡ 0)
    × (4 ≤ size → off % 4 ≡ 0)
    × (size ≡ 2 → off % 2 ≡ 0)

-- A block cut off the free part of `d`, leaving that of `d'`.
pub record Cut (size off : ℕ) (d d' : HalData) : Type 0 where
  pub aligned : IsAligned size off
  pub from : d.shmem_bot ≤ off
  pub upto : off + size ≤ d.shmem_top
  pub apart : (off + size ≤ d'.shmem_bot) ⊎ (d'.shmem_top ≤ off)
  pub shrinks : (d.shmem_bot ≤ d'.shmem_bot) × (d'.shmem_top ≤ d.shmem_top)
  pub avail : d'.shmem_avail ≡ d'.shmem_top - d'.shmem_bot

align_up_lem : (size x : ℕ) → (x ≤ align_up size x) × IsAligned size (align_up size x)
align_up_lem size x = ground arith

align_down_lem : (size x : ℕ) → (align_down size x ≤ x) × IsAligned size (align_down size x)
align_down_lem size x = ground arith

pub shmalloc_up-Cut :
    (size off : ℕ) (d : HalData)
    → (shmalloc_up size d).0 ≡ some off
    → Cut size off d (shmalloc_up size d).1
unfolding shmalloc_up
shmalloc_up-Cut size off d e = ground arith

pub shmalloc_dn-Cut :
    (size off : ℕ) (d : HalData)
    → (shmalloc_dn size d).0 ≡ some off
    → Cut size off d (shmalloc_dn size d).1
unfolding shmalloc_dn
shmalloc_dn-Cut size off d e = ground arith

pub shmalloc_up-none :
    (size : ℕ) (d : HalData) → (shmalloc_up size d).0 ≡ none → (shmalloc_up size d).1 ≡ d
unfolding shmalloc_up
shmalloc_up-none size d e = ground arith

pub shmalloc_dn-none :
    (size : ℕ) (d : HalData) → (shmalloc_dn size d).0 ≡ none → (shmalloc_dn size d).1 ≡ d
unfolding shmalloc_dn
shmalloc_dn-none size d e = ground arith

-- `shmalloc_up` refuses only a size that does not fit behind the aligned bottom.
pub shmalloc_up_fits :
    (size : ℕ) (d : HalData)
    → d.shmem_bot + 15 + size ≤ d.shmem_top
    → (off : ℕ) × ((shmalloc_up size d).0 ≡ some off)
unfolding shmalloc_up
shmalloc_up_fits size d h = (align_up size d.shmem_bot, ground arith)

-- A request to one of the two allocators.
pub data Request : Type 0 where
  up dn : ℕ → Request

abbrev pub wanted : Request → ℕ
wanted (up size) = size
wanted (dn size) = size

pub serve : Request → HalData → Option ℕ × HalData
serve (up size) d = shmalloc_up size d
serve (dn size) d = shmalloc_dn size d

pub record Block : Type 0 where
  pub off : ℕ
  pub size : ℕ

abbrev add_block : Option ℕ → ℕ → List Block → List Block
add_block none size bs = bs
add_block (some off) size bs = record { off = off; size = size } ∷ bs

-- The blocks that a row of requests is given.
pub blocks : List Request → HalData → List Block
unfolding serve
blocks [] d = []
blocks (r ∷ rs) d = add_block (serve r d).0 (wanted r) (blocks rs (serve r d).1)

abbrev pub All {ℓ} : (Block → Type ℓ) → List Block → Type ℓ
All P [] = Unit
All P (b ∷ bs) = P b × All P bs

-- Aligned, and inside the range.
abbrev pub Lies : ℕ → ℕ → Block → Type 0
Lies lo hi b = IsAligned b.size b.off × (lo ≤ b.off) × (b.off + b.size ≤ hi)

abbrev pub Apart : Block → Block → Type 0
Apart a b = (a.off + a.size ≤ b.off) ⊎ (b.off + b.size ≤ a.off)

abbrev pub AllApart : List Block → Type 0
AllApart [] = Unit
AllApart (b ∷ bs) = All (Apart b) bs × AllApart bs

All-imp {ℓ} :
    {P Q : Block → Type ℓ} (bs : List Block) → ((b : Block) → P b → Q b) → All P bs → All Q bs
All-imp [] f h = tt
All-imp (b ∷ bs) f h = (f b h.0, All-imp bs f h.1)

serve-Cut :
    (r : Request) (off : ℕ) (d : HalData)
    → (serve r d).0 ≡ some off
    → Cut (wanted r) off d (serve r d).1
unfolding serve
serve-Cut (up size) off d e = shmalloc_up-Cut size off d e
serve-Cut (dn size) off d e = shmalloc_dn-Cut size off d e

serve-none : (r : Request) (d : HalData) → (serve r d).0 ≡ none → (serve r d).1 ≡ d
unfolding serve
serve-none (up size) d e = shmalloc_up-none size d e
serve-none (dn size) d e = shmalloc_dn-none size d e

Cut-blocks :
    (size off : ℕ) (d d' : HalData) (bs : List Block)
    → Cut size off d d'
    → All (Lies d'.shmem_bot d'.shmem_top) bs × AllApart bs
    → All (Lies d.shmem_bot d.shmem_top) (record { off = off; size = size } ∷ bs)
      × AllApart (record { off = off; size = size } ∷ bs)
Cut-blocks size off d d' bs c h = (
  (
    (c.aligned, c.from, c.upto),
    All-imp bs (λ b l. (l.0, omega (arith, c.shrinks), omega (arith, c.shrinks))) h.0,
  ),
  (All-imp bs (λ b l. omega (arith, c.apart)) h.0, h.1),
)

blocks_lem :
    (rs : List Request) (d : HalData)
    → All (Lies d.shmem_bot d.shmem_top) (blocks rs d) × AllApart (blocks rs d)
unfolding blocks
blocks_lem [] d = (tt, tt)
blocks_lem (r ∷ rs) d = elim (Option-cases (serve r d).0) [
  | inl e ↦ rw (e, blocks) (rw (serve-none r d e) (blocks_lem rs d))
  | inr (off, e) ↦
      rw (e, blocks)
        (Cut-blocks (wanted r) off d (serve r d).1 (blocks rs (serve r d).1) (serve-Cut r off d e)
          (blocks_lem rs (serve r d).1))
]

-- For any row of requests to the two allocators, every block that is handed out lies behind the
-- header and inside the shared memory, is aligned on 16, 8 or 4 bytes where its size is at least as
-- much and on 2 where its size is 2, and overlaps no other.
pub blocks-AllApart :
    (header : ℕ) (rs : List Request) (d : HalData)
    → IsPool header d
    → All (Lies header hal_size) (blocks rs d) × AllApart (blocks rs d)
blocks-AllApart header rs d v = (
  All-imp (blocks rs d) (λ b l. (l.0, omega (arith, v.behind_header), omega (arith, v.in_block)))
      (blocks_lem rs d).0,
  (blocks_lem rs d).1,
)

-- Each request keeps the free part between the header and the end of the shared memory.
pub serve-IsPool :
    (header : ℕ) (r : Request) (d : HalData) → IsPool header d → IsPool header (serve r d).1
unfolding serve shmalloc_up shmalloc_dn
serve-IsPool header (up size) d v = ground arith
serve-IsPool header (dn size) d v = ground (arith, align_down_lem size (d.shmem_top - size))
