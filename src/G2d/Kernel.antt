-- ===== src/G2d/Kernel.antt =====
-- The kernel services that kernel/g2d/g2d_h616.c calls, as parameters, and the calls themselves as
-- a history: `calls` lists them newest first.
use moonlight_allwinner_h.Prelude.{
  ℕ, ◌≡◌, refl, ◌⊎◌, inl, inr, Bool, true, false, List, [], ◌∷◌, Option, none, some, ◌||◌,
  if◌then◌else◌,
}
use moonlight_allwinner_h.Prelude.Int.{ℤ, eqb_ℤ}

-- The error numbers that the driver makes itself, and those that a service returns.
pub data Errno : Type 0 where
  einval efault enotty enomem : Errno
  service : ℕ → Errno

pub data Result {ℓ} (A : Type ℓ) : Type ℓ where
  ok : A → Result A
  err : Errno → Result A

pub Result-cases {ℓ} :
    {A : Type ℓ} (r : Result A) → ((e : Errno) × (r ≡ err e)) ⊎ ((a : A) × (r ≡ ok a))
Result-cases (ok a) = inr (a, refl)
Result-cases (err e) = inl (e, refl)

-- One entry of a mapped scatter-gather table: `sg_dma_address` and `sg_dma_len`.
pub record Segment : Type 0 where
  pub addr : ℕ
  pub len : ℕ

-- What the dma-buf services answer for a file descriptor: the buffer's size, whether it can be
-- attached, and its mapped segments.
pub record DmaBuf : Type 0 where
  pub get_buf : ℤ → Result ℕ
  pub attach_buf : ℤ → Result (Unit {0})
  pub map_buf : ℤ → Result (List Segment)

pub data Call : Type 0 where
  dma_buf_get dma_buf_put : ℤ → Call
  dma_buf_attach dma_buf_detach : ℤ → Call
  dma_buf_map_attachment dma_buf_unmap_attachment : ℤ → Call
  mutex_lock mutex_unlock : Call

abbrev pub Calls : Type 0
Calls = List Call

-- What the driver holds: a reference to a buffer, an attachment, a mapping, the device's mutex.
pub data Handle : Type 0 where
  buffer attachment mapping : ℤ → Handle
  mutex : Handle

abbrev pub same_handle : Handle → Handle → Bool
same_handle (buffer a) (buffer b) = eqb_ℤ a b
same_handle (attachment a) (attachment b) = eqb_ℤ a b
same_handle (mapping a) (mapping b) = eqb_ℤ a b
same_handle mutex mutex = true
same_handle _ _ = false

abbrev pub holds_mutex : List Handle → Bool
holds_mutex [] = false
holds_mutex (h ∷ hs) = same_handle h mutex || holds_mutex hs

-- A release is in order when it releases what was taken last.
abbrev pub release_top : Handle → List Handle → Option (List Handle)
release_top h [] = none
release_top h (top ∷ hs) = if same_handle top h then some hs else none

abbrev pub after_call : Call → List Handle → Option (List Handle)
after_call (dma_buf_get fd) hs = some (buffer fd ∷ hs)
after_call (dma_buf_put fd) hs = release_top (buffer fd) hs
after_call (dma_buf_attach fd) hs = some (attachment fd ∷ hs)
after_call (dma_buf_detach fd) hs = release_top (attachment fd) hs
after_call (dma_buf_map_attachment fd) hs = some (mapping fd ∷ hs)
after_call (dma_buf_unmap_attachment fd) hs = release_top (mapping fd) hs
after_call mutex_lock hs = if holds_mutex hs then none else some (mutex ∷ hs)
after_call mutex_unlock hs = release_top mutex hs

-- What is held after a history, newest first; `none` if a release was out of order, released what
-- was not held, or the mutex was taken twice.
unfoldable pub held : Calls → Option (List Handle)
held [] = some []
held (c ∷ older) = elim (held older) [ none ↦ none | some hs ↦ after_call c hs ]
