-- ===== src/G2d/Ioctl.antt =====
-- The file operations of kernel/g2d/g2d_h616.c: open, release and the ioctls.
use moonlight_allwinner_h.Prelude.{
  ℕ, ◌%◌, ◌^◌, Bool, ◌∷◌, Option, none, some, ◌||◌, ◌&&◌, not, ltb, ◌==◌, if◌then◌else◌,
}
use moonlight_allwinner_h.Prelude.Int.{ℤ, pos, ◌+ℤ◌, ◌-ℤ◌, ltb_ℤ}
use moonlight_allwinner_h.G2d.Kernel.{
  Errno, einval, efault, enotty, Result, ok, err, DmaBuf, Calls, mutex_lock, mutex_unlock,
}
use moonlight_allwinner_h.G2d.Import.{Import, g2d_import, g2d_release_import}

-- g2d_regs.h
abbrev pub g2d_fmt_nv12 : ℕ
g2d_fmt_nv12 = 0x28

abbrev pub g2d_fmt_yuv420_uvc_u1v1u0v0 : ℕ
g2d_fmt_yuv420_uvc_u1v1u0v0 = 0x29

abbrev pub g2d_fmt_xrgb8888 : ℕ
g2d_fmt_xrgb8888 = 0x04

abbrev pub g2d_sclk_gate : ℕ
g2d_sclk_gate = 0x00000

abbrev pub g2d_max_dim : ℕ
g2d_max_dim = 2048

-- `struct g2d_blt_req`
pub record BltReq : Type 0 where
  pub src_fd : ℤ
  pub dst_fd : ℤ
  pub width : ℕ
  pub height : ℕ
  pub src_format : ℕ
  pub dst_format : ℕ
  pub timeout_ms : ℕ

-- The tests before the mutex is taken, in order; each answers -EINVAL.
abbrev pub bad_size : BltReq → Bool
bad_size r = r.width == 0 || r.height == 0 || ltb g2d_max_dim r.width || ltb g2d_max_dim r.height

abbrev pub bad_src_format : BltReq → Bool
bad_src_format r =
    not (r.src_format == g2d_fmt_nv12) && not (r.src_format == g2d_fmt_yuv420_uvc_u1v1u0v0)

abbrev pub bad_dst_format : BltReq → Bool
bad_dst_format r = not (r.dst_format == g2d_fmt_xrgb8888)

abbrev pub bad_fd : BltReq → Bool
bad_fd r = ltb_ℤ r.src_fd (pos 0) || ltb_ℤ r.dst_fd (pos 0)

module _ (dma : DmaBuf) where
  -- between `mutex_lock` and the labels: the import of the destination, with the source held
  blt_dst : BltReq → Import → Calls → Option Errno × Calls
  blt_dst r src calls =
      let (ret, dst, calls') = g2d_import dma r.dst_fd calls in
      elim ret [
        | some e ↦ (some e, mutex_unlock ∷ (g2d_release_import src calls').1)
        | none ↦ (none, mutex_unlock ∷ (g2d_release_import src (g2d_release_import dst calls').1).1)
      ]

  blt_locked : BltReq → Calls → Option Errno × Calls
  unfolding blt_dst
  blt_locked r calls =
      let (ret, src, calls') = g2d_import dma r.src_fd calls in
      elim ret [ some e ↦ (some e, mutex_unlock ∷ calls') | none ↦ blt_dst r src calls' ]

  -- The request is what `copy_from_user` delivered, `none` where it failed.
  unfoldable pub g2d_ioctl_blt : Option BltReq → Calls → Option Errno × Calls
  unfolding blt_locked
  g2d_ioctl_blt none calls = (some efault, calls)
  g2d_ioctl_blt (some r) calls =
      if bad_size r
      then (some einval, calls)
      else if bad_src_format r
      then (some einval, calls)
      else if bad_dst_format r
      then (some einval, calls)
      else if bad_fd r
      then (some einval, calls)
      else blt_locked r (mutex_lock ∷ calls)

-- The command of an ioctl: the two that the driver defines, or any other number.
pub data Command : Type 0 where
  ping : Command
  blt : Option BltReq → Command
  other : ℕ → Command

-- What an ioctl returns beside the history: a number, or an error.
abbrev pub blt_reply : Option Errno × Calls → Result ℕ × Calls
blt_reply (none, calls) = (ok 0, calls)
blt_reply (some e, calls) = (err e, calls)

-- `rd` is `g2d_rd`, the register file; `& 0xffff` is a remainder.
unfoldable pub g2d_ioctl : DmaBuf → (ℕ → ℕ) → Command → Calls → Result ℕ × Calls
g2d_ioctl dma rd ping calls = (ok (rd g2d_sclk_gate % 2 ^ 16), calls)
g2d_ioctl dma rd (blt req) calls = blt_reply (g2d_ioctl_blt dma req calls)
g2d_ioctl dma rd (other n) calls = (err enotty, calls)

-- `open_count`, under the mutex.
unfoldable pub g2d_open : ℤ → Calls → ℤ × Calls
g2d_open open_count calls = (open_count +ℤ pos 1, mutex_unlock ∷ mutex_lock ∷ calls)

unfoldable pub g2d_release : ℤ → Calls → ℤ × Calls
g2d_release open_count calls = (open_count -ℤ pos 1, mutex_unlock ∷ mutex_lock ∷ calls)
