-- ===== src/G2d/Lifecycle.antt =====
-- The order in which kernel/g2d/g2d_h616.c switches the device on and off.
use moonlight_allwinner_h.Prelude.{
  ℕ, ◌≡◌, ◌⊎◌, Bool, true, false, not, [], ◌∷◌, Option, none, some, arith, ◌&&◌, ◌==◌,
  if◌then◌else◌,
}
use moonlight_allwinner_h.G2d.Kernel.{Errno}
use moonlight_allwinner_h.G2d.Probe

-- What is on: the two clocks, the published instance and the character device, and the last values
-- written to the reset and the gates.
pub record Status : Type 0 where
  pub bus : Bool
  pub g2d : Bool
  pub published : Bool
  pub registered : Bool
  pub sclk : ℕ
  pub hclk : ℕ
  pub reset : ℕ

abbrev pub off : Status
off = record {
  bus = false;
  g2d = false;
  published = false;
  registered = false;
  sclk = 0;
  hclk = 0;
  reset = 0;
}

abbrev pub require : Bool → Status → Option Status
require true s = some s
require false s = none

-- One action, `none` where it comes too early or too late: the module clock only under the bus
-- clock, registers only under both, the character device only while an instance is published.
abbrev pub act : Probe.Action → Status → Option Status
act Probe.clk_enable_bus s = require (not s.bus) (record s { bus = true })
act Probe.clk_enable_g2d s = require (s.bus && not s.g2d) (record s { g2d = true })
act Probe.clk_disable_bus s = require (s.bus && not s.g2d) (record s { bus = false })
act Probe.clk_disable_g2d s = require s.g2d (record s { g2d = false })
act Probe.set_drvdata s = require (not s.published) (record s { published = true })
act Probe.clear_drvdata s =
    require (s.published && not s.registered) (record s { published = false })
act Probe.misc_registered s =
    require (s.published && s.bus && s.g2d && not s.registered) (record s { registered = true })
act Probe.misc_deregister s = require s.registered (record s { registered = false })
act (Probe.write_ccu r v) s = require (s.bus && s.g2d) s
act (Probe.write_reg r v) s = require (s.bus && s.g2d) (
    if r == Probe.sclk_gate
    then record s { sclk = v }
    else if r == Probe.hclk_gate
    then record s { hclk = v }
    else if r == Probe.ahb_reset
    then record s { reset = v }
    else s)

unfoldable pub status : Probe.Actions → Option Status
status [] = some off
status (a ∷ older) = elim (status older) [ none ↦ none | some s ↦ act a s ]

abbrev pub running : Status
running = record {
  bus = true;
  g2d = true;
  published = true;
  registered = true;
  sclk = 3;
  hclk = 3;
  reset = 3;
}

-- A probe that the character device fails last: the gates and the reset keep what the start-up
-- wrote, 3, and all else is off.
abbrev pub left_open : Status
left_open = record {
  bus = false;
  g2d = false;
  published = false;
  registered = false;
  sclk = 3;
  hclk = 3;
  reset = 3;
}

abbrev pub InOrder : Probe.Platform → Option Errno × Probe.Actions → Type 0
InOrder p (none, acts) =
    (status acts ≡ some running) × (status (Probe.g2d_remove true acts) ≡ some off)
InOrder p (some e, acts) =
    (status acts ≡ some off) ⊎ ((p.misc_register ≡ some e) × (status acts ≡ some left_open))

-- Whatever the platform answers, the probe switches everything on and off in order. If it succeeds,
-- both clocks are on, the reset and the two gates hold 3, the instance is published and the character
-- device registered, and a later remove switches it all off in order, the gates and the reset at 0.
-- If it fails, no clock is on, no instance is published and no character device registered; the gates
-- and the reset are at 0 too, unless it was misc_register that failed: then they may stay at 3.
pub probe_order : (p : Probe.Platform) → InOrder p (Probe.g2d_probe p)
unfolding Probe.g2d_probe Probe.g2d_remove status
probe_order p = ground arith
