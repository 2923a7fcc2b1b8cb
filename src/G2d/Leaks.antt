-- ===== src/G2d/Leaks.antt =====
-- No path through the import or the ioctls of kernel/g2d/g2d_h616.c loses or double-frees a handle.
use moonlight_allwinner_h.Prelude.{ℕ, ◌≤◌, ◌<◌, ◌≡◌, false, List, ◌∷◌, none, some, arith, ◌⊎◌, ◌↔◌}
use moonlight_allwinner_h.Prelude.Int.{ℤ}
use moonlight_allwinner_h.G2d.Kernel.{
  DmaBuf, Calls, Handle, buffer, attachment, mapping, mutex, mutex_lock, held, holds_mutex,
}
use moonlight_allwinner_h.G2d.Import.{Outcome, g2d_import, g2d_release_import}
use moonlight_allwinner_h.G2d.Contiguous.{Usable, SmallTables, import_usable, import_ok_usable}
use moonlight_allwinner_h.G2d.Ioctl.{BltReq, Command, ping, blt, other, g2d_ioctl_blt, g2d_ioctl}

-- What an import leaves behind, over the handles held before it.
abbrev pub AfterImport : ℤ → List Handle → Outcome → Type 0
AfterImport fd hs (none, imp, calls) =
    (held calls ≡ some (mapping fd ∷ attachment fd ∷ buffer fd ∷ hs))
    × (imp.dmabuf ≡ some fd)
    × (imp.attach ≡ some fd)
    × (imp.sgt ≡ some fd)
AfterImport fd hs (some e, imp, calls) =
    (held calls ≡ some hs) × (imp.dmabuf ≡ none) × (imp.attach ≡ none) × (imp.sgt ≡ none)

import_holds :
    (dma : DmaBuf) (fd : ℤ) (calls : Calls) (hs : List Handle)
    → held calls ≡ some hs
    → AfterImport fd hs (g2d_import dma fd calls)
unfolding g2d_import held
import_holds dma fd calls hs h = ground arith

-- No ioctl, on any request and whatever the services answer, leaves a handle behind, releases one
-- twice or out of order, or keeps the mutex: what was held before is held after.
pub ioctl_releases :
    (dma : DmaBuf) (rd : ℕ → ℕ) (cmd : Command) (calls : Calls) (hs : List Handle)
    → held calls ≡ some hs
    → holds_mutex hs ≡ false
    → held (g2d_ioctl dma rd cmd calls).1 ≡ some hs
unfolding g2d_ioctl g2d_ioctl_blt g2d_release_import held
ioctl_releases dma rd ping calls hs h free = h
ioctl_releases dma rd (other n) calls hs h free = h
ioctl_releases dma rd (blt none) calls hs h free = h
ioctl_releases dma rd (blt (some r)) calls hs h free =
    let locked = mutex_lock ∷ calls in
    let src = g2d_import dma r.src_fd locked in
    ground (
      arith,
      import_holds dma r.src_fd locked (mutex ∷ hs),
      import_holds dma r.dst_fd src.2
          (mapping r.src_fd ∷ attachment r.src_fd ∷ buffer r.src_fd ∷ mutex ∷ hs),
    )

-- What the tests before the mutex let through, and what the imports accept.
pub record Accepted (dma : DmaBuf) (r : BltReq) : Type 0 where
  pub width_in : (0 < r.width) × (r.width ≤ 2048)
  pub height_in : (0 < r.height) × (r.height ≤ 2048)
  pub src_known : (r.src_format ≡ 0x28) ⊎ (r.src_format ≡ 0x29)
  pub dst_known : r.dst_format ≡ 0x04
  pub src : Usable dma r.src_fd
  pub dst : Usable dma r.dst_fd

blt_accepts :
    (dma : DmaBuf) (r : BltReq) (calls : Calls)
    → SmallTables dma
    → Accepted dma r
    → (g2d_ioctl_blt dma (some r) calls).0 ≡ none
unfolding g2d_ioctl_blt
blt_accepts dma r calls small a =
    let locked = mutex_lock ∷ calls in
    let src = g2d_import dma r.src_fd locked in
    ground (
      arith,
      import_usable dma r.src_fd locked small a.src,
      import_usable dma r.dst_fd src.2 small a.dst,
    )

blt_ok-Accepted :
    (dma : DmaBuf) (r : BltReq) (calls : Calls)
    → SmallTables dma
    → (g2d_ioctl_blt dma (some r) calls).0 ≡ none
    → Accepted dma r
unfolding g2d_ioctl_blt
blt_ok-Accepted dma r calls small h =
    let locked = mutex_lock ∷ calls in
    let src = g2d_import dma r.src_fd locked in
    record {
      width_in = ground arith;
      height_in = ground arith;
      src_known = ground arith;
      dst_known = ground arith;
      src = import_ok_usable dma r.src_fd locked small (ground arith);
      dst = import_ok_usable dma r.dst_fd src.2 small (ground arith);
    }

-- Where the tables that the services answer are small, the blit ioctl succeeds on a request exactly
-- when its width and height are within 1 and 2048, its formats are known ones and both its
-- descriptors are usable.
pub blt_ok_iff :
    (dma : DmaBuf) (r : BltReq) (calls : Calls)
    → SmallTables dma
    → ((g2d_ioctl_blt dma (some r) calls).0 ≡ none) ↔ Accepted dma r
blt_ok_iff dma r calls small = (blt_ok-Accepted dma r calls small, blt_accepts dma r calls small)
