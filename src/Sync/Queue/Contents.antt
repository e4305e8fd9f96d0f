-- ===== src/Sync/Queue/Contents.antt =====
-- The items that a queue holds, oldest first, as `queue_send` and `queue_recv` change them.
use aarch64_rtos.Prelude.{
  ℕ, zero, suc, ◌+◌, ◌-◌, ◌%◌, ◌<◌, ◌≤◌, ◌≡◌, ◌≢◌, refl, ap, ap₂, ◌∙◌, List, [], ◌∷◌, ◌++◌, arith,
  length, update, update-at, update-ne,
}
use aarch64_rtos.Sync.Queue.{Queue, queue_cap}

-- `n` items from the slot `h` on, around the end of the buffer
unfoldable pub items : (ℕ → ℕ) → ℕ → ℕ → List ℕ
items buf h zero = []
items buf h (suc n) = buf h ∷ items buf ((h + 1) % queue_cap) n

abbrev pub contents : Queue → List ℕ
contents q = items q.buf q.head q.count

pub record IsValidQueue (q : Queue) : Type 0 where
  pub room : q.count ≤ queue_cap
  pub head_in : q.head < queue_cap
  pub tail_at : q.tail ≡ (q.head + q.count) % queue_cap

items-update :
    (buf : ℕ → ℕ) (t x h n : ℕ)
    → ((i : ℕ) → i < n → (h + i) % queue_cap ≢ t)
    → h < queue_cap
    → items (update buf t x) h n ≡ items buf h n
unfolding items
items-update buf t x h zero out lt = refl
items-update buf t x h (suc n) out lt =
    ap₂ (λ a rest. a ∷ rest) (update-ne buf t x h (λ e. out 0 (omega arith) (omega arith)))
      (items-update buf t x ((h + 1) % queue_cap) n
        (λ i l e. out (i + 1) (omega arith) (omega arith)) (omega arith))

items_snoc :
    (buf : ℕ → ℕ) (h n : ℕ)
    → h < queue_cap
    → items buf h (suc n) ≡ items buf h n ++ (buf ((h + n) % queue_cap) ∷ [])
unfolding items
items_snoc buf h zero lt = let e : (h + 0) % queue_cap ≡ h = omega arith in rw e refl
items_snoc buf h (suc n) lt =
    let e : ((h + 1) % queue_cap + n) % queue_cap ≡ (h + suc n) % queue_cap = omega arith in
    ap (λ rest. buf h ∷ rest) (rw (← e) (items_snoc buf ((h + 1) % queue_cap) n (omega arith)))

-- An item that is stored in the slot after the last one is the newest.
pub items-push :
    (buf : ℕ → ℕ) (x h n : ℕ)
    → h < queue_cap
    → n < queue_cap
    → items (update buf ((h + n) % queue_cap) x) h (n + 1) ≡ items buf h n ++ (x ∷ [])
items-push buf x h n lt room =
    let t = (h + n) % queue_cap in
    let e : n + 1 ≡ suc n = omega arith in
    rw e (
      items_snoc (update buf t x) h n lt
      ∙ ap₂ (λ xs a. xs ++ (a ∷ [])) (items-update buf t x h n (λ i l q. absurd (omega arith)) lt)
          (update-at buf t x))

-- The first of the items is the one in the slot `h`.
pub items-first :
    (buf : ℕ → ℕ) (h n : ℕ)
    → 0 < n
    → items buf h n ≡ buf h ∷ items buf ((h + 1) % queue_cap) (n - 1)
unfolding items
items-first buf h zero lt = absurd (omega arith)
items-first buf h (suc n) lt = let e : suc n - 1 ≡ n = omega arith in rw e refl

pub length-items : (buf : ℕ → ℕ) (h n : ℕ) → length (items buf h n) ≡ n
unfolding items
length-items buf h zero = refl
length-items buf h (suc n) = ap suc (length-items buf ((h + 1) % queue_cap) n)
