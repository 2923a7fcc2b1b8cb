-- ===== src/G2d/Contiguous.antt =====
-- Which tables the loop of `g2d_import` accepts (kernel/g2d/g2d_h616.c): exactly those whose
-- non-empty segments follow one another without a gap.
use moonlight_allwinner_h.Prelude.{
  ℕ, ◌+◌, ◌%◌, ◌≤◌, Option-cases, ◌^◌, ◌<◌, ◌≡◌, ◌≢◌, ◌⊎◌, ◌↔◌, List, [], ◌∷◌, none, some, arith,
  inl, inr, ◌==◌, if◌then◌else◌,
}
use moonlight_allwinner_h.G2d.Kernel.{Segment, DmaBuf, Calls, ok, Result-cases}
use moonlight_allwinner_h.Prelude.Int.{ℤ, pos, ◌≤ℤ◌}
use moonlight_allwinner_h.G2d.Import.{join_segment, join_segments, g2d_import}

-- The bytes of a table.
abbrev pub total : List Segment → ℕ
total [] = 0
total (s ∷ ss) = s.len + total ss

-- The address of the first segment that is not empty, or 0.
abbrev pub first_addr : List Segment → ℕ
first_addr [] = 0
first_addr (s ∷ ss) = if s.len == 0 then first_addr ss else s.addr

-- `dma_addr_t` has 64 bits.
abbrev pub AreAddresses : List Segment → Type 0
AreAddresses [] = Unit {0}
AreAddresses (s ∷ ss) = (s.addr < 2 ^ 64) × AreAddresses ss

-- Every non-empty segment starts where the one before it ended, at `next` for the first.
abbrev pub Follows : ℕ → List Segment → Type 0
Follows next [] = Unit {0}
Follows next (s ∷ ss) =
    ((s.len ≡ 0) × Follows next ss)
    ⊎ ((s.len ≢ 0) × (s.addr ≡ next % 2 ^ 64) × Follows (next + s.len) ss)

-- After the first segment, `next` being the end of the span so far.
joined-Follows :
    (ss : List Segment) (next base span b n : ℕ)
    → next ≡ base + span
    → 0 < span
    → span + total ss < 2 ^ 64
    → join_segments ss base span ≡ some (b, n)
    → Follows next ss × (b ≡ base) × (n ≡ span + total ss)
unfolding join_segments join_segment
joined-Follows [] next base span b n end p small e = ground arith
joined-Follows (s ∷ ss) next base span b n end p small e = ground (
  arith,
  joined-Follows ss next base span b n,
  joined-Follows ss (next + s.len) base ((span + s.len) % 2 ^ 64) b n,
)

Follows-joined :
    (ss : List Segment) (next base span : ℕ)
    → next ≡ base + span
    → 0 < span
    → span + total ss < 2 ^ 64
    → Follows next ss
    → join_segments ss base span ≡ some (base, span + total ss)
unfolding join_segments join_segment
Follows-joined [] next base span end p small f = ground arith
Follows-joined (s ∷ ss) next base span end p small f = ground (
  arith,
  Follows-joined ss next base span,
  Follows-joined ss (next + s.len) base ((span + s.len) % 2 ^ 64),
)

first_joined :
    (ss : List Segment) (b n : ℕ)
    → total ss < 2 ^ 64
    → AreAddresses ss
    → join_segments ss 0 0 ≡ some (b, n)
    → Follows (first_addr ss) ss × (b ≡ first_addr ss) × (n ≡ total ss)
unfolding join_segments join_segment
first_joined [] b n small a e = ground arith
first_joined (s ∷ ss) b n small a e =
    ground (arith, first_joined ss b n, joined-Follows ss (s.addr + s.len) s.addr s.len b n)

first-Follows :
    (ss : List Segment)
    → total ss < 2 ^ 64
    → AreAddresses ss
    → Follows (first_addr ss) ss
    → join_segments ss 0 0 ≡ some (first_addr ss, total ss)
unfolding join_segments join_segment
first-Follows [] small a f = ground arith
first-Follows (s ∷ ss) small a f =
    ground (arith, first-Follows ss, Follows-joined ss (s.addr + s.len) s.addr s.len)

-- On a table of 64-bit addresses and of less than 2^64 bytes, the loop over the segments finds an
-- address and a number of bytes exactly when the non-empty segments follow one another without a
-- gap and these are the first address and the total length.
pub join_segments_iff :
    (ss : List Segment) (b n : ℕ)
    → total ss < 2 ^ 64
    → AreAddresses ss
    → (join_segments ss 0 0 ≡ some (b, n))
      ↔ (Follows (first_addr ss) ss × (b ≡ first_addr ss) × (n ≡ total ss))
join_segments_iff ss b n small a =
    (first_joined ss b n small a, λ f. ground (arith, first-Follows ss small a f.0))

-- What the services must answer for a descriptor to be usable: a buffer of `size` bytes whose
-- mapped table is one run of at least that many bytes, and of at least one.
pub record Usable (dma : DmaBuf) (fd : ℤ) : Type 0 where
  pub size : ℕ
  pub segments : List Segment
  pub is_fd : pos 0 ≤ℤ fd
  pub got : dma.get_buf fd ≡ ok size
  pub attached : dma.attach_buf fd ≡ ok tt
  pub mapped : dma.map_buf fd ≡ ok segments
  pub one_run : Follows (first_addr segments) segments
  pub not_empty : 0 < total segments
  pub long_enough : size ≤ total segments

-- Every table that the services can answer is one of 64-bit addresses and less than 2^64 bytes.
abbrev pub SmallTables : DmaBuf → Type 0
SmallTables dma =
    (fd : ℤ) (ss : List Segment) → dma.map_buf fd ≡ ok ss → (total ss < 2 ^ 64) × AreAddresses ss

-- Where the tables that the services answer are small, `g2d_import` accepts a descriptor that is
-- usable, and reports the address and the length of its run.
pub import_usable :
    (dma : DmaBuf) (fd : ℤ) (calls : Calls)
    → SmallTables dma
    → (u : Usable dma fd)
    → ((g2d_import dma fd calls).0 ≡ none)
      × ((g2d_import dma fd calls).1.base ≡ first_addr u.segments)
      × ((g2d_import dma fd calls).1.size ≡ total u.segments)
unfolding g2d_import
import_usable dma fd calls small u = ground (
  arith,
  small fd u.segments u.mapped,
  join_segments_iff u.segments (first_addr u.segments) (total u.segments),
)

pub import_ok_usable :
    (dma : DmaBuf) (fd : ℤ) (calls : Calls)
    → SmallTables dma
    → (g2d_import dma fd calls).0 ≡ none
    → Usable dma fd
unfolding g2d_import
import_ok_usable dma fd calls small h = elim (Result-cases (dma.get_buf fd)) [
  | inl (e, got) ↦ absurd (ground arith)
  | inr (size, got) ↦ elim (Result-cases (dma.attach_buf fd)) [
    | inl (e, attached) ↦ absurd (ground arith)
    | inr (_, attached) ↦ elim (Result-cases (dma.map_buf fd)) [
      | inl (e, mapped) ↦ absurd (ground arith)
      | inr (ss, mapped) ↦ elim (Option-cases (join_segments ss 0 0)) [
        | inl gap ↦ absurd (ground arith)
        | inr (run, joined) ↦
            let (follows, first, all) =
              (join_segments_iff ss run.0 run.1 (small fd ss mapped).0 (small fd ss mapped).1).0
                joined in
            record {
              size = size;
              segments = ss;
              is_fd = ground arith;
              got = got;
              attached = attached;
              mapped = mapped;
              one_run = follows;
              not_empty = ground arith;
              long_enough = ground arith;
            }
      ]
    ]
  ]
]
