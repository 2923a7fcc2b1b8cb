-- ===== src/G2d/Import.antt =====
-- `g2d_import` and `g2d_release_import` of kernel/g2d/g2d_h616.c.
use moonlight_allwinner_h.Prelude.{
  ℕ, ◌+◌, ◌%◌, ◌^◌, Bool, List, [], ◌∷◌, Option, none, some, ◌||◌, ltb, ◌==◌, if◌then◌else◌,
}
use moonlight_allwinner_h.Prelude.Int.{ℤ, pos, ltb_ℤ}
use moonlight_allwinner_h.G2d.Kernel.{
  Errno, einval, ok, err, Segment, DmaBuf, Call, Calls, dma_buf_get, dma_buf_put, dma_buf_attach,
  dma_buf_detach, dma_buf_map_attachment, dma_buf_unmap_attachment,
}

-- `struct g2d_import`. A pointer is the descriptor that it was made from, or `none` for NULL.
pub record Import : Type 0 where
  pub dmabuf : Option ℤ
  pub attach : Option ℤ
  pub sgt : Option ℤ
  pub base : ℕ
  pub size : ℕ

-- `memset(imp, 0, sizeof(*imp))`
abbrev pub empty_import : Import
empty_import = record { dmabuf = none; attach = none; sgt = none; base = 0; size = 0 }

-- One round of the loop over the segments, over `base` and `span`; `none` is the branch that finds
-- a gap. `dma_addr_t` and `size_t` have 64 bits.
unfoldable pub join_segment : Segment → ℕ → ℕ → Option (ℕ × ℕ)
join_segment s base span =
    if s.len == 0
    then some (base, span)
    else if span == 0
    then some (s.addr, s.len)
    else if s.addr == (base + span) % 2 ^ 64
    then some (base, (span + s.len) % 2 ^ 64)
    else none

-- `for_each_sgtable_dma_sg`
unfoldable pub join_segments : List Segment → ℕ → ℕ → Option (ℕ × ℕ)
join_segments [] base span = some (base, span)
join_segments (s ∷ ss) base span = elim (join_segment s base span) [
  | none ↦ none
  | some (base', span') ↦ join_segments ss base' span'
]

-- `!span || span < imp->dmabuf->size`
abbrev pub too_short : ℕ → ℕ → Bool
too_short span size = span == 0 || ltb span size

abbrev pub Outcome : Type 0
Outcome = Option Errno × Import × Calls

-- The cleanup labels, which fall through.
err_put : ℤ → Errno → Import → Calls → Outcome
err_put fd ret imp calls = (some ret, record imp { dmabuf = none }, dma_buf_put fd ∷ calls)

err_detach : ℤ → Errno → Import → Calls → Outcome
unfolding err_put
err_detach fd ret imp calls =
    err_put fd ret (record imp { attach = none }) (dma_buf_detach fd ∷ calls)

err_unmap : ℤ → Errno → Import → Calls → Outcome
unfolding err_detach
err_unmap fd ret imp calls =
    err_detach fd ret (record imp { sgt = none }) (dma_buf_unmap_attachment fd ∷ calls)

module _ (dma : DmaBuf) where
  -- from the loop on, with the table mapped
  import_span : ℤ → ℕ → List Segment → Import → Calls → Outcome
  unfolding err_unmap
  import_span fd size segments imp calls = elim (join_segments segments 0 0) [
    | none ↦ err_unmap fd einval imp calls
    | some (base, span) ↦
        if too_short span size
        then err_unmap fd einval imp calls
        else (none, record imp { base = base; size = span }, calls)
  ]

  import_map : ℤ → ℕ → Import → Calls → Outcome
  unfolding import_span err_detach
  import_map fd size imp calls = elim (dma.map_buf fd) [
    | err e ↦ err_detach fd e imp calls
    | ok segments ↦
        import_span fd size segments (record imp { sgt = some fd })
          (dma_buf_map_attachment fd ∷ calls)
  ]

  import_attach : ℤ → ℕ → Import → Calls → Outcome
  unfolding import_map err_put
  import_attach fd size imp calls = elim (dma.attach_buf fd) [
    | err e ↦ err_put fd e (record imp { attach = none }) calls
    | ok _ ↦ import_map fd size (record imp { attach = some fd }) (dma_buf_attach fd ∷ calls)
  ]

  -- A service that fails takes nothing, so only the calls that succeed enter the history.
  unfoldable pub g2d_import : ℤ → Calls → Outcome
  unfolding import_attach
  g2d_import fd calls =
      if ltb_ℤ fd (pos 0) then (some einval, empty_import, calls) else elim (dma.get_buf fd) [
        | err e ↦ (some e, empty_import, calls)
        | ok size ↦
            import_attach fd size (record empty_import { dmabuf = some fd })
              (dma_buf_get fd ∷ calls)
      ]

abbrev pub release_if : Option ℤ → (ℤ → Call) → Calls → Calls
release_if none call calls = calls
release_if (some fd) call calls = call fd ∷ calls

unfoldable pub g2d_release_import : Import → Calls → Import × Calls
g2d_release_import imp calls = (
  empty_import,
  release_if imp.dmabuf dma_buf_put
      (release_if imp.attach dma_buf_detach (release_if imp.sgt dma_buf_unmap_attachment calls)),
)
