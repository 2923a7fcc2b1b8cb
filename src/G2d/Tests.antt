-- ===== src/G2d/Tests.antt =====
-- Runs of the model of kernel/g2d/g2d_h616.c on small buffers.
use moonlight_allwinner_h.Prelude.{◌≡◌, ◌↔◌, refl, true, List, [], ◌∷◌, none, some, arith, inl, inr}
use moonlight_allwinner_h.Prelude.Int.{pos}
use moonlight_allwinner_h.G2d.Kernel.{ok, err, service, DmaBuf, Segment, held}
use moonlight_allwinner_h.G2d.Import.{g2d_import, join_segments}
use moonlight_allwinner_h.G2d.Contiguous.{
  total, AreAddresses, Follows, first_addr, Usable, SmallTables, join_segments_iff, import_usable,
}
use moonlight_allwinner_h.G2d.Ioctl.{BltReq, blt, g2d_ioctl, g2d_ioctl_blt}
use moonlight_allwinner_h.G2d.Leaks.{Accepted, ioctl_releases, blt_ok_iff}
use moonlight_allwinner_h.G2d.Probe.{Platform, g2d_probe}
use moonlight_allwinner_h.G2d.Lifecycle.{InOrder, probe_order}

-- Two pages that follow one another, and an empty segment.
abbrev pages : List Segment
pages =
    record { addr = 0x40000000; len = 4096 }
    ∷ record { addr = 0; len = 0 }
    ∷ record { addr = 0x40001000; len = 4096 }
    ∷ []

abbrev services : DmaBuf
services = record { get_buf = λ fd. ok 8192; attach_buf = λ fd. ok tt; map_buf = λ fd. ok pages }

abbrev request : BltReq
request = record {
  src_fd = pos 3;
  dst_fd = pos 4;
  width = 64;
  height = 32;
  src_format = 0x28;
  dst_format = 0x04;
  timeout_ms = 0;
}

pages-AreAddresses : AreAddresses pages
pages-AreAddresses = (omega arith, (omega arith, (omega arith, tt)))

services-SmallTables : SmallTables services
services-SmallTables fd ss h =
    let e : pages ≡ ss = cc (h) in rw (← e) (omega arith, pages-AreAddresses)

usable : Usable services (pos 3)
usable = record {
  size = 8192;
  segments = pages;
  is_fd = omega arith;
  got = refl;
  attached = refl;
  mapped = refl;
  one_run = inr (omega arith, refl, inl (refl, inr (omega arith, refl, tt)));
  not_empty = omega arith;
  long_enough = omega arith;
}

join_segments_iff_example :
    (join_segments pages 0 0 ≡ some (0x40000000, 8192))
    ↔ (Follows (first_addr pages) pages × (0x40000000 ≡ first_addr pages) × (8192 ≡ total pages))
join_segments_iff_example = join_segments_iff pages 0x40000000 8192 (omega arith) pages-AreAddresses

import_usable_example :
    ((g2d_import services (pos 3) []).0 ≡ none)
    × ((g2d_import services (pos 3) []).1.base ≡ first_addr usable.segments)
    × ((g2d_import services (pos 3) []).1.size ≡ total usable.segments)
import_usable_example = import_usable services (pos 3) [] services-SmallTables usable

blt_ok_iff_example :
    ((g2d_ioctl_blt services (some request) []).0 ≡ none) ↔ Accepted services request
blt_ok_iff_example = blt_ok_iff services request [] services-SmallTables

nothing_held : held [] ≡ some []
unfolding held
nothing_held = refl

ioctl_releases_example : held (g2d_ioctl services (λ r. 3) (blt (some request)) []).1 ≡ some []
ioctl_releases_example =
    ioctl_releases services (λ r. 3) (blt (some request)) [] [] nothing_held refl

-- A platform whose interrupt line cannot be had.
abbrev no_irq : Platform
no_irq = record {
  kzalloc = true;
  ioremap_base = none;
  ioremap_ccu = none;
  ccu_resource = true;
  ioremap_ccu_unreserved = true;
  clk_get_g2d = none;
  clk_get_bus = none;
  enable_bus = none;
  enable_g2d = none;
  get_irq = err (service 6);
  request_irq = none;
  ccu_value = 1;
  misc_register = none;
}

probe_order_example : InOrder no_irq (g2d_probe no_irq)
probe_order_example = probe_order no_irq
