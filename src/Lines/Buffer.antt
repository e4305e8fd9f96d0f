-- ===== src/Lines/Buffer.antt =====
-- What a buffer holds while a line is built in it.
use aarch64_rtos.Prelude.{
  ℕ, zero, suc, ◌+◌, ◌-◌, ◌*◌, ◌/◌, ◌%◌, ◌^◌, ◌≤◌, ◌<◌, ◌≡◌, ◌≢◌, refl, ap, ap₂, ◌∙◌, some, ◌>>=◌,
  List, [], ◌∷◌, ◌++◌, fun_ext, arith, ltb, lt→ltb, Bool-cases, inl, inr, update, update-at,
  update-ne, length, length-append, take, take-nil, ne→==, Bool, true, not, ◌==◌, ◌&&◌,
}
use mathlib.Core.List.{append_assoc, append-nil}
use aarch64_rtos.Uart.Decimal.{read_string}
use aarch64_rtos.Lines.{
  Cursor, line_size, put, emit, emit_all, copy_prefix, hex_digit, emit_hex, print_hex_into,
}

-- The `n` bytes from place `j` on
unfoldable pub chars : (ℕ → ℕ) → ℕ → ℕ → List ℕ
chars buf j zero = []
chars buf j (suc n) = buf j ∷ chars buf (j + 1) n

chars-update : (buf : ℕ → ℕ) (i c j n : ℕ) → j + n ≤ i → chars (update buf i c) j n ≡ chars buf j n
unfolding chars
chars-update buf i c j zero h = refl
chars-update buf i c j (suc n) h =
    ap₂ (λ x xs. x ∷ xs) (update-ne buf i c j (omega arith))
      (chars-update buf i c (j + 1) n (omega arith))

chars_snoc : (buf : ℕ → ℕ) (j n : ℕ) → chars buf j (suc n) ≡ chars buf j n ++ (buf (j + n) ∷ [])
unfolding chars
chars_snoc buf j zero = let e : j + 0 ≡ j = omega arith in rw e refl
chars_snoc buf j (suc n) =
    let e : j + 1 + n ≡ j + suc n = omega arith in
    ap (λ xs. buf j ∷ xs) (rw (← e) (chars_snoc buf (j + 1) n))

-- The buffer of `size` bytes holds `text` before the cursor.
pub record Holds (size : ℕ) (text : List ℕ) (at : Cursor) : Type 0 where
  pub place : at.0 ≡ length text
  pub room : at.0 ≤ size
  pub chars_are : chars at.1 0 at.0 ≡ text

pub emit-Holds :
    (size c : ℕ) (text : List ℕ) (at : Cursor)
    → Holds size text at
    → length text < size
    → (to : Cursor) × (emit size c at ≡ some to) × Holds size (text ++ (c ∷ [])) to
unfolding emit put
emit-Holds size c text at h lt = (
  (at.0 + 1, update at.1 at.0 c),
  rw (lt→ltb at.0 size (omega (arith, h.place))) refl,
  record {
    place = omega (arith, h.place, length-append text (c ∷ []));
    room = omega (arith, h.place);
    chars_are =
        let one : at.0 + 1 ≡ suc at.0 = omega arith in
        rw one (
          chars_snoc (update at.1 at.0 c) 0 at.0
          ∙ ap₂ (λ xs x. xs ++ (x ∷ []))
              (chars-update at.1 at.0 c 0 at.0 (omega arith) ∙ h.chars_are)
              (let e : 0 + at.0 ≡ at.0 = omega arith in rw e (update-at at.1 at.0 c)));
  },
)

pub emit_all-Holds :
    (size : ℕ) (s text : List ℕ) (at : Cursor)
    → Holds size text at
    → length text + length s ≤ size
    → (to : Cursor) × (emit_all size s at ≡ some to) × Holds size (text ++ s) to
unfolding emit_all
emit_all-Holds size [] text at h le = (at, refl, rw append-nil h)
emit_all-Holds size (c ∷ s) text at h le =
    let (at1, e, h1) = emit-Holds size c text at h (omega arith) in
    let (to, r, h2) =
      emit_all-Holds size s (text ++ (c ∷ [])) at1 h1
        (omega (arith, length-append text (c ∷ []))) in
    (to, rw e r, rw (append_assoc text (c ∷ []) s) at h2)

pub copy_prefix-Holds :
    (prefix text : List ℕ) (at : Cursor)
    → Holds line_size text at
    → length text ≤ 40
    → (to : Cursor) × (copy_prefix prefix at ≡ some to)
      × Holds line_size (text ++ take (40 - length text) prefix) to
unfolding copy_prefix
copy_prefix-Holds [] text at h le = (at, refl, rw take-nil (rw append-nil h))
copy_prefix-Holds (c ∷ s) text at h le = elim (Bool-cases (ltb at.0 40)) [
  | inl more ↦
      let below : length text < 40 = ground (arith, h.place, more) in
      let (at1, e, h1) = emit-Holds line_size c text at h (omega arith) in
      let longer : length (text ++ (c ∷ [])) ≡ length text + 1 = length-append text (c ∷ []) in
      let (to, r, h2) = copy_prefix-Holds s (text ++ (c ∷ [])) at1 h1 (omega arith) in
      let left : 40 - length text ≡ suc (40 - length (text ++ (c ∷ []))) = omega arith in
      (to, rw (more, e) r, rw left (rw (append_assoc text (c ∷ [])) at h2))
  | inr full ↦
      let none_left : 40 - length text ≡ 0 = ground (arith, h.place, full) in
      (at, rw full refl, rw (none_left, append-nil) h)
]

-- The hexadecimal digits that `rounds` rounds send.
unfoldable pub hex_digits : ℕ → ℕ → List ℕ
hex_digits zero v = []
hex_digits (suc rounds) v = hex_digit (v / 2 ^ (rounds * 4) % 16) ∷ hex_digits rounds v

pub length-hex_digits : (rounds v : ℕ) → length (hex_digits rounds v) ≡ rounds
unfolding hex_digits
length-hex_digits zero v = refl
length-hex_digits (suc rounds) v = ap suc (length-hex_digits rounds v)

emit_hex-all :
    (rounds v : ℕ) (at : Cursor)
    → emit_hex rounds v at ≡ emit_all line_size (hex_digits rounds v) at
unfolding emit_hex emit_all hex_digits
emit_hex-all zero v at = refl
emit_hex-all (suc rounds) v at =
    ap (λ f. emit line_size (hex_digit (v / 2 ^ (rounds * 4) % 16)) at >>= f)
      (fun_ext (emit_hex-all rounds v))

-- A byte at the cursor, which stays, leaves what was written.
pub put-Holds :
    (size c : ℕ) (text : List ℕ) (at : Cursor)
    → Holds size text at
    → length text < size
    → (put size c at ≡ some (update at.1 at.0 c)) × Holds size text (at.0, update at.1 at.0 c)
unfolding put
put-Holds size c text at h lt = (
  rw (lt→ltb at.0 size (omega (arith, h.place))) refl,
  record {
    place = h.place;
    room = h.room;
    chars_are = chars-update at.1 at.0 c 0 at.0 (omega arith) ∙ h.chars_are;
  },
)

pub print_hex_into-Holds :
    (v : ℕ) (text : List ℕ) (at : Cursor)
    → Holds line_size text at
    → length text + 16 < line_size
    → (to : Cursor) × (print_hex_into v at ≡ some to) × Holds line_size (text ++ hex_digits 16 v) to
unfolding print_hex_into
print_hex_into-Holds v text at h lt =
    let len : length (hex_digits 16 v) ≡ 16 = length-hex_digits 16 v in
    let (to, e, h1) = emit_all-Holds line_size (hex_digits 16 v) text at h (omega arith) in
    let (p, h2) =
      put-Holds line_size 0 (text ++ hex_digits 16 v) to h1
        (omega (arith, length-append text (hex_digits 16 v))) in
    (_, rw (emit_hex-all, e, p) refl, h2)

-- No byte of the text is the one that ends a string.
abbrev pub NoNul : List ℕ → Type 0
NoNul [] = Unit {0}
NoNul (c ∷ s) = (c ≢ 0) × NoNul s

-- A text given in full is tested for it.
abbrev pub is_text : List ℕ → Bool
is_text [] = true
is_text (c ∷ s) = not (c == 0) && is_text s

pub text-NoNul : (s : List ℕ) → is_text s ≡ true → NoNul s
text-NoNul [] e = tt
text-NoNul (c ∷ s) e = (λ z. ground (arith, e, z), text-NoNul s (ground (arith, e)))

read-chars :
    (buf : ℕ → ℕ) (j n size : ℕ)
    → NoNul (chars buf j n)
    → buf (j + n) ≡ 0
    → n < size
    → read_string size j buf ≡ some (chars buf j n)
unfolding chars read_string
read-chars buf j n zero p z lt = absurd (omega arith)
read-chars buf j zero (suc size) p z lt = let e : j + 0 ≡ j = omega arith in rw (rw e at z) refl
read-chars buf j (suc n) (suc size) (c, p) z lt =
    let e : j + 1 + n ≡ j + suc n = omega arith in
    rw (ne→== (buf j) 0 c, read-chars buf (j + 1) n size p (rw e z) (omega arith)) refl

-- The string that ends at the cursor is the text.
pub read-Holds :
    (size : ℕ) (text : List ℕ) (at : Cursor)
    → Holds size text at
    → length text < size
    → NoNul text
    → read_string size 0 (update at.1 at.0 0) ≡ some text
read-Holds size text at h lt p =
    let same : chars (update at.1 at.0 0) 0 at.0 ≡ text =
      chars-update at.1 at.0 0 0 at.0 (omega arith) ∙ h.chars_are in
    let zero_end : update at.1 at.0 0 (0 + at.0) ≡ 0 =
      let e : 0 + at.0 ≡ at.0 = omega arith in rw e (update-at at.1 at.0 0) in
    read-chars (update at.1 at.0 0) 0 at.0 size (rw same p) zero_end (omega (arith, h.place))
    ∙ ap some same

pub NoNul-append : (s t : List ℕ) → NoNul s → NoNul t → NoNul (s ++ t)
NoNul-append [] t p q = q
NoNul-append (c ∷ s) t (n, p) q = (n, NoNul-append s t p q)

pub NoNul-take : (n : ℕ) (s : List ℕ) → NoNul s → NoNul (take n s)
NoNul-take zero s p = tt
NoNul-take (suc n) [] p = tt
NoNul-take (suc n) (c ∷ s) (e, p) = (e, NoNul-take n s p)
