-- ===== src/Switch/Round.antt =====
-- A switch away from a task and back, by `switch_to` of kernel/switch.S.
use aarch64_rtos.Prelude.{
  ℕ, ◌+◌, ◌-◌, ◌%◌, ◌^◌, ◌≤◌, ◌<◌, ◌≡◌, ◌≢◌, ◌⊎◌, inl, inr, refl, sym, ap, ◌∙◌, arith, update,
}
use aarch64_rtos.Switch.{Cpu, push, push_pair, pop, pop_pair, save, restore, exchange, switch_to}

-- The frame at `base` holds the registers x19 to x30 and DAIF of `c`.
pub record IsFrame (base : ℕ) (c : Cpu) (mem : ℕ → ℕ) : Type 0 where
  pub daif : mem base ≡ c.daif
  pub fp_lr : (mem (base + 16) ≡ c.x 29) × (mem (base + 24) ≡ c.x 30)
  pub x27_28 : (mem (base + 32) ≡ c.x 27) × (mem (base + 40) ≡ c.x 28)
  pub x25_26 : (mem (base + 48) ≡ c.x 25) × (mem (base + 56) ≡ c.x 26)
  pub x23_24 : (mem (base + 64) ≡ c.x 23) × (mem (base + 72) ≡ c.x 24)
  pub x21_22 : (mem (base + 80) ≡ c.x 21) × (mem (base + 88) ≡ c.x 22)
  pub x19_20 : (mem (base + 96) ≡ c.x 19) × (mem (base + 104) ≡ c.x 20)

save-sp : (c : Cpu) → 112 ≤ c.sp → c.sp < 2 ^ 64 → (save c).sp + 112 ≡ c.sp
unfolding save push push_pair
save-sp c lo hi = omega arith

save-IsFrame : (c : Cpu) → 112 ≤ c.sp → c.sp < 2 ^ 64 → IsFrame (c.sp - 112) c (save c).mem
unfolding save push push_pair update
save-IsFrame c lo hi = record {
  daif = ground arith;
  fp_lr = (ground arith, ground arith);
  x27_28 = (ground arith, ground arith);
  x25_26 = (ground arith, ground arith);
  x23_24 = (ground arith, ground arith);
  x21_22 = (ground arith, ground arith);
  x19_20 = (ground arith, ground arith);
}

-- What a task finds when it goes on: the registers that it expects kept, its stack pointer, and DAIF.
pub record Resumes (c r : Cpu) : Type 0 where
  pub kept : (i : ℕ) → 19 ≤ i → i ≤ 30 → r.x i ≡ c.x i
  pub sp : r.sp ≡ c.sp
  pub daif : r.daif ≡ c.daif

-- An address outside the frame of 112 bytes at `base`
abbrev pub Outside : ℕ → ℕ → Type 0
Outside base a = (a < base) ⊎ (base + 112 ≤ a)

pub save-mem :
    (c : Cpu) (a : ℕ)
    → 112 ≤ c.sp
    → c.sp < 2 ^ 64
    → Outside (c.sp - 112) a
    → (save c).mem a ≡ c.mem a
unfolding save push push_pair update
save-mem c a lo hi out = ground (arith, out)

pub restore_lem :
    (base : ℕ) (c d : Cpu)
    → d.sp ≡ base
    → base + 112 < 2 ^ 64
    → IsFrame base c d.mem
    → ((i : ℕ) → 19 ≤ i → i ≤ 30 → (restore d).x i ≡ c.x i)
      × ((restore d).sp ≡ base + 112)
      × ((restore d).daif ≡ c.daif)
unfolding restore pop pop_pair update
restore_lem base c d e hi f =
    let a1 : (base + 16) % 2 ^ 64 ≡ base + 16 = omega arith in
    let a2 : (base + 16 + 16) % 2 ^ 64 ≡ base + 32 = omega arith in
    let a3 : (base + 32 + 16) % 2 ^ 64 ≡ base + 48 = omega arith in
    let a4 : (base + 48 + 16) % 2 ^ 64 ≡ base + 64 = omega arith in
    let a5 : (base + 64 + 16) % 2 ^ 64 ≡ base + 80 = omega arith in
    let a6 : (base + 80 + 16) % 2 ^ 64 ≡ base + 96 = omega arith in
    (
      λ i lo le. rw (e, a1, a2, a3, a4, a5, a6) (ground (arith, f)),
      omega (arith, e),
      ap d.mem e ∙ f.daif,
    )

-- The frame stays in memory as long as its words do.
IsFrame-mem :
    (base : ℕ) (c : Cpu) (m m' : ℕ → ℕ)
    → ((a : ℕ) → base ≤ a → a < base + 112 → m' a ≡ m a)
    → IsFrame base c m
    → IsFrame base c m'
IsFrame-mem base c m m' same f = record {
  daif = same base (omega arith) (omega arith) ∙ f.daif;
  fp_lr = (at 16 (omega arith) f.fp_lr.0, at 24 (omega arith) f.fp_lr.1);
  x27_28 = (at 32 (omega arith) f.x27_28.0, at 40 (omega arith) f.x27_28.1);
  x25_26 = (at 48 (omega arith) f.x25_26.0, at 56 (omega arith) f.x25_26.1);
  x23_24 = (at 64 (omega arith) f.x23_24.0, at 72 (omega arith) f.x23_24.1);
  x21_22 = (at 80 (omega arith) f.x21_22.0, at 88 (omega arith) f.x21_22.1);
  x19_20 = (at 96 (omega arith) f.x19_20.0, at 104 (omega arith) f.x19_20.1);
}
  where
    at : (o : ℕ) {v : ℕ} → o < 112 → m (base + o) ≡ v → m' (base + o) ≡ v
    at o lt e = same (base + o) (omega arith) (omega arith) ∙ e

exchange-mem : (c : Cpu) (a : ℕ) → a ≢ c.x 0 → (exchange c).mem a ≡ c.mem a
unfolding exchange update
exchange-mem c a ne = ground arith

exchange-stored : (c : Cpu) → (exchange c).mem (c.x 0) ≡ c.sp
unfolding exchange update
exchange-stored c = ground arith

exchange-sp : (c : Cpu) → (exchange c).sp ≡ c.x 1
unfolding exchange update
exchange-sp c = ground arith

save-x : (c : Cpu) → ((save c).x 0 ≡ c.x 0) × ((save c).x 1 ≡ c.x 1)
unfolding save push push_pair update
save-x c = (refl, refl)

switch_to-mem : (c : Cpu) → (switch_to c).mem ≡ (exchange (save c)).mem
unfolding switch_to restore pop pop_pair
switch_to-mem c = refl

-- An address in the frame is not one outside it.
inside-ne : (base a b : ℕ) → base ≤ a → a < base + 112 → Outside base b → a ≢ b
inside-ne base a b le lt out = omega (arith, out)

-- What a switch leaves at an address other than that of the stored stack pointer
switch_to-kept : (c : Cpu) (a : ℕ) → a ≢ c.x 0 → (switch_to c).mem a ≡ (save c).mem a
switch_to-kept c a ne =
    ap (λ (m : ℕ → ℕ). m a) (switch_to-mem c) ∙ exchange-mem (save c) a (λ e. ne (e ∙ (save-x c).0))

apart_from :
    (base a : ℕ) (d : Cpu)
    → 112 ≤ d.sp
    → base ≤ a
    → a < base + 112
    → (d.sp ≤ base) ⊎ (base + 112 ≤ d.sp - 112)
    → Outside (d.sp - 112) a
apart_from base a d lo le lt (inl h) = inr (omega arith)
apart_from base a d lo le lt (inr h) = inl (omega arith)

far :
    (c d : Cpu)
    → 112 ≤ c.sp
    → (d.sp ≤ c.sp - 112) ⊎ (c.sp ≤ d.sp - 112)
    → (d.sp ≤ c.sp - 112) ⊎ (c.sp - 112 + 112 ≤ d.sp - 112)
far c d lo (inl h) = inl h
far c d lo (inr h) = inr (omega arith)

-- A core switches to the frame at `base`, which is outside its own frame and the word that it stores
-- its stack pointer in.
pub switch_to-restores :
    (base : ℕ) (c d : Cpu)
    → 112 ≤ d.sp
    → d.sp < 2 ^ 64
    → base + 112 < 2 ^ 64
    → d.x 1 ≡ base
    → Outside base (d.x 0)
    → (d.sp ≤ base) ⊎ (base + 112 ≤ d.sp - 112)
    → IsFrame base c d.mem
    → ((i : ℕ) → 19 ≤ i → i ≤ 30 → (switch_to d).x i ≡ c.x i)
      × ((switch_to d).sp ≡ base + 112)
      × ((switch_to d).daif ≡ c.daif)
unfolding switch_to
switch_to-restores base c d lo hi top new out apart f =
    restore_lem base c (exchange (save d)) (exchange-sp (save d) ∙ (save-x d).1 ∙ new) top (
      IsFrame-mem base c d.mem (exchange (save d)).mem
        (λ a le lt.
          exchange-mem (save d) a (λ e. inside-ne base a (d.x 0) le lt out (e ∙ (save-x d).0))
          ∙ save-mem d a lo hi (apart_from base a d lo le lt apart))
        f)

-- A task that calls `switch_to` and is switched to again, with the stack pointer that was stored for
-- it, goes on as it left: x19 to x30 (so that it returns to its caller), the stack pointer and DAIF
-- are those of the call. In between, other code may change all but the 112 bytes below its stack
-- pointer; the frame of the core that switches back, and the words where the stack pointers are
-- stored, lie outside these.
pub switch_round_trip :
    (c d : Cpu)
    → 112 ≤ c.sp
    → c.sp < 2 ^ 64
    → 112 ≤ d.sp
    → d.sp < 2 ^ 64
    → Outside (c.sp - 112) (c.x 0)
    → Outside (c.sp - 112) (d.x 0)
    → (d.sp ≤ c.sp - 112) ⊎ (c.sp ≤ d.sp - 112)
    → d.x 1 ≡ (switch_to c).mem (c.x 0)
    → ((a : ℕ) → c.sp - 112 ≤ a → a < c.sp → d.mem a ≡ (switch_to c).mem a)
    → Resumes c (switch_to d)
switch_round_trip c d lo hi lo' hi' out out' apart new same =
    let base = c.sp - 112 in
    let here : base + 112 ≡ c.sp = omega arith in
    let stored : (switch_to c).mem (c.x 0) ≡ base =
      ap (λ (m : ℕ → ℕ). m (c.x 0)) (switch_to-mem c)
      ∙ ap (λ p. (exchange (save c)).mem p) (sym (save-x c).0)
      ∙ exchange-stored (save c)
      ∙ omega (arith, save-sp c lo hi) in
    let frame =
      IsFrame-mem base c (save c).mem d.mem
        (λ a le lt.
          same a le (omega arith) ∙ switch_to-kept c a (inside-ne base a (c.x 0) le lt out))
        (save-IsFrame c lo hi) in
    let (kept, sp, daif) =
      switch_to-restores base c d lo' hi' (omega arith) (new ∙ stored) out' (far c d lo apart)
        frame in
    record { kept = kept; sp = sp ∙ here; daif = daif }
