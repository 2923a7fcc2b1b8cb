-- ===== src/G2d/Probe.antt =====
-- The life of the platform device in kernel/g2d/g2d_h616.c: probe, remove, the register start-up and
-- the interrupt handler. What the driver does to the device is a history, newest first.
use moonlight_allwinner_h.Prelude.{
  ℕ, ◌%◌, ◌^◌, Bool, true, false, List, [], ◌∷◌, Option, none, some, ◌&&◌, ◌==◌, if◌then◌else◌,
}
use moonlight_allwinner_h.Prelude.Bits.{bit_or}
use moonlight_allwinner_h.G2d.Kernel.{Errno, enomem, Result, ok, err}

-- g2d_regs.h
abbrev pub sclk_gate : ℕ
sclk_gate = 0x00000

abbrev pub hclk_gate : ℕ
hclk_gate = 0x00004

abbrev pub ahb_reset : ℕ
ahb_reset = 0x00008

abbrev pub mixer_int : ℕ
mixer_int = 0x00104

abbrev pub ccu_g2d_bgr_reg : ℕ
ccu_g2d_bgr_reg = 0x63c

-- What the platform answers to a probe; `some e` is a service that fails with `e`.
pub record Platform : Type 0 where
  pub kzalloc : Bool
  pub ioremap_base : Option Errno
  pub ioremap_ccu : Option Errno
  pub ccu_resource : Bool
  pub ioremap_ccu_unreserved : Bool
  pub clk_get_g2d : Option Errno
  pub clk_get_bus : Option Errno
  pub enable_bus : Option Errno
  pub enable_g2d : Option Errno
  pub get_irq : Result ℕ
  pub request_irq : Option Errno
  pub ccu_value : ℕ
  pub misc_register : Option Errno

pub data Action : Type 0 where
  clk_enable_bus clk_enable_g2d clk_disable_bus clk_disable_g2d : Action
  set_drvdata clear_drvdata : Action
  misc_registered misc_deregister : Action
  write_ccu : ℕ → ℕ → Action
  write_reg : ℕ → ℕ → Action

abbrev pub Actions : Type 0
Actions = List Action

unfoldable pub g2d_hw_init : Actions → Actions
g2d_hw_init acts =
    write_reg hclk_gate 0x3
    ∷ write_reg sclk_gate 0x3
    ∷ write_reg ahb_reset 0x3
    ∷ write_reg ahb_reset 0x0
    ∷ acts

-- Whether `g->ccu` is mapped: by name, or unreserved from the same resource.
unfoldable pub ccu_mapped : Platform → Bool
ccu_mapped p = elim p.ioremap_ccu [
  | none ↦ true
  | some _ ↦ p.ccu_resource && p.ioremap_ccu_unreserved
]

-- label `err_clk`
err_clk : Errno → Actions → Option Errno × Actions
err_clk ret acts = (some ret, clk_disable_bus ∷ clk_disable_g2d ∷ acts)

-- `readl`, then `writel(v | BIT(16))`
deassert_reset : Platform → Actions → Actions
unfolding ccu_mapped
deassert_reset p acts =
    if ccu_mapped p then write_ccu ccu_g2d_bgr_reg (bit_or p.ccu_value (2 ^ 16)) ∷ acts else acts

-- from `platform_set_drvdata` on
probe_publish : Platform → Actions → Option Errno × Actions
unfolding err_clk deassert_reset g2d_hw_init
probe_publish p acts =
    let ready = g2d_hw_init (deassert_reset p (set_drvdata ∷ acts)) in
    elim p.misc_register [
      | some e ↦ err_clk e (clear_drvdata ∷ ready)
      | none ↦ (none, misc_registered ∷ ready)
    ]

-- from `platform_get_irq` on, with both clocks enabled
probe_irq : Platform → Actions → Option Errno × Actions
unfolding err_clk probe_publish
probe_irq p acts = elim p.get_irq [
  | err e ↦ err_clk e acts
  | ok irq ↦ elim p.request_irq [ some e ↦ err_clk e acts | none ↦ probe_publish p acts ]
]

probe_clocks : Platform → Option Errno × Actions
unfolding probe_irq
probe_clocks p = elim p.clk_get_g2d [
  | some e ↦ (some e, [])
  | none ↦ elim p.clk_get_bus [
    | some e ↦ (some e, [])
    | none ↦ elim p.enable_bus [
      | some e ↦ (some e, [])
      | none ↦ elim p.enable_g2d [
        | some e ↦ (some e, clk_disable_bus ∷ clk_enable_bus ∷ [])
        | none ↦ probe_irq p (clk_enable_g2d ∷ clk_enable_bus ∷ [])
      ]
    ]
  ]
]

unfoldable pub g2d_probe : Platform → Option Errno × Actions
unfolding probe_clocks
g2d_probe p =
    if p.kzalloc
    then elim p.ioremap_base [ some e ↦ (some e, []) | none ↦ probe_clocks p ]
    else (some enomem, [])

-- The argument says whether `platform_get_drvdata` has an instance.
unfoldable pub g2d_remove : Bool → Actions → Actions
g2d_remove false acts = acts
g2d_remove true acts =
    clear_drvdata
    ∷ clk_disable_bus
    ∷ clk_disable_g2d
    ∷ write_reg ahb_reset 0x0
    ∷ write_reg hclk_gate 0x0
    ∷ write_reg sclk_gate 0x0
    ∷ misc_deregister
    ∷ acts

-- `g2d_irq` on the value read from the status register: whether it is handled (and `done` is
-- completed), and the register write.
unfoldable pub g2d_irq : ℕ → Actions → Bool × Actions
g2d_irq tmp acts = if tmp % 2 == 1 then (true, write_reg mixer_int tmp ∷ acts) else (false, acts)
