-- ===== src/Debugger/Dump.antt =====
-- What `dump_registers` shows, and which bytes of the screen it writes.
use mathlib.Core.Path.{subst}
use operating_system_concept.Base.{
  ℕ, zero, suc, ◌+◌, ◌-◌, ◌*◌, ◌%◌, ◌^◌, ◌≤◌, ◌<◌, ◌≡◌, refl, ◌∙◌, Bool, true, ◌&&◌, ◌||◌, some,
  List, [], ◌∷◌, arith, leb, get_elem?, update, update_elsewhere,
}
use operating_system_concept.Cpu.{X86Tss}
use operating_system_concept.Debugger.{
  Field, Video, write_hex, write_fields, shown_fields, draw_mask, dump_registers, copy_chars,
  copy_lines, set_attributes,
}
use operating_system_concept.Debugger.Hex.{
  read_digits, write_digits-outside, read_digits-agree, read_digits-write_digits,
}

-- The byte behind the digits of a field.
abbrev pub end_of : Field → ℕ
end_of f = (f.line - 1) * 160 + (f.col + f.digits - 1) * 2

abbrev pub read_field : Field → Video → ℕ
read_field f screen = read_digits f.digits (end_of f) screen

-- The field lies on the screen.
abbrev pub fits : Field → Bool
fits f = leb (2 * f.digits) (end_of f) && leb (end_of f) 4000

abbrev pub apart : Field → Field → Bool
apart f g = leb (end_of f + 2 * g.digits) (end_of g) || leb (end_of g + 2 * f.digits) (end_of f)

abbrev pub all_apart : Field → List Field → Bool
all_apart f [] = true
all_apart f (g ∷ gs) = apart f g && all_apart f gs

-- Fields that do not overlap.
abbrev pub is_layout : List Field → Bool
is_layout [] = true
is_layout (f ∷ fs) = fits f && (all_apart f fs && is_layout fs)

fields-outside :
    (f : Field) (fs : List Field) (i : ℕ) (screen : Video)
    → all_apart f fs ≡ true
    → is_layout fs ≡ true
    → i < end_of f
    → end_of f ≤ i + 2 * f.digits
    → write_fields fs screen i ≡ screen i
unfolding write_fields write_hex
fields-outside f [] i screen away good below above = refl
fields-outside f (g ∷ gs) i screen away good below above =
    fields-outside f gs i (write_hex g screen) (ground (arith, away)) (ground (arith, good)) below
      above
    ∙ write_digits-outside g.digits (end_of g) g.value i screen (ground (arith, good))
        (ground (arith, away, below, above))

pub read_field-write_fields :
    (fs : List Field) (screen : Video)
    → is_layout fs ≡ true
    → (i : ℕ) (f : Field) → get_elem? fs i ≡ some f
    → read_field f (write_fields fs screen) ≡ f.value % 16 ^ f.digits
unfolding write_fields write_hex
read_field-write_fields [] screen good i f at = absurd (cc)
read_field-write_fields (g ∷ gs) screen good zero f at =
    let same : g ≡ f = cc in
    let fit : 2 * g.digits ≤ end_of g = ground (arith, good) in
    subst (λ f. read_field f (write_fields gs (write_hex g screen)) ≡ f.value % 16 ^ f.digits) same
      (read_digits-agree g.digits (end_of g) (write_fields gs (write_hex g screen))
          (write_hex g screen) fit
          (λ j below above.
            fields-outside g gs j (write_hex g screen) (ground (arith, good)) (ground (arith, good))
              below above)
        ∙ read_digits-write_digits g.digits (end_of g) g.value screen fit)
read_field-write_fields (g ∷ gs) screen good (suc i) f at =
    read_field-write_fields gs (write_hex g screen) (ground (arith, good)) i f at

-- The registers stand on the screen: every field of the list reads as the last digits, in base 16,
-- of its value, as many as the field is wide, whatever was on the screen and whatever the mask.
pub dump_registers-shows :
    (text : ℕ → ℕ) (trapno error_code address : ℕ) (t : X86Tss) (screen : Video) (i : ℕ) (f : Field)
    → get_elem? (shown_fields trapno error_code address t) i ≡ some f
    → read_field f (dump_registers text trapno error_code address t screen)
      ≡ f.value % 16 ^ f.digits
unfolding dump_registers
dump_registers-shows text trapno error_code address t screen i f at =
    read_field-write_fields (shown_fields trapno error_code address t) (draw_mask text screen) refl
      i f at

-- Nothing is written behind the screen.
copy_chars-outside :
    (n at k : ℕ) (text : ℕ → ℕ) (screen : Video) (i : ℕ)
    → at + 2 * n ≤ i + 1
    → copy_chars n at k text screen i ≡ screen i
unfolding copy_chars
copy_chars-outside zero at k text screen i out = refl
copy_chars-outside (suc n) at k text screen i out =
    copy_chars-outside n (at + 2) (k + 1) text (update screen at (text k)) i (omega arith)
    ∙ update_elsewhere screen at (text k) i (ground arith)

copy_lines-outside :
    (n i k : ℕ) (text : ℕ → ℕ) (screen : Video) (j : ℕ)
    → (i + n) * 160 ≤ j + 1
    → copy_lines n i k text screen j ≡ screen j
unfolding copy_lines
copy_lines-outside zero i k text screen j out = refl
copy_lines-outside (suc n) i k text screen j out =
    copy_lines-outside n (i + 1) (k + 81) text (copy_chars 80 (i * 160) k text screen) j
      (omega arith)
    ∙ copy_chars-outside 80 (i * 160) k text screen j (omega arith)

set_attributes-outside :
    (n i colour : ℕ) (screen : Video) (j : ℕ)
    → 2 * (i + n) ≤ j
    → set_attributes n i colour screen j ≡ screen j
unfolding set_attributes
set_attributes-outside zero i colour screen j out = refl
set_attributes-outside (suc n) i colour screen j out =
    set_attributes-outside n (i + 1) colour (update screen (2 * i + 1) colour) j (omega arith)
    ∙ update_elsewhere screen (2 * i + 1) colour j (ground arith)

fields_on_screen :
    (fs : List Field) (screen : Video) (i : ℕ)
    → is_layout fs ≡ true
    → 4000 ≤ i
    → write_fields fs screen i ≡ screen i
unfolding write_fields write_hex
fields_on_screen [] screen i good out = refl
fields_on_screen (g ∷ gs) screen i good out =
    fields_on_screen gs (write_hex g screen) i (ground (arith, good)) out
    ∙ write_digits-outside g.digits (end_of g) g.value i screen (ground (arith, good))
        (ground (arith, good, out))

pub dump_registers-outside :
    (text : ℕ → ℕ) (trapno error_code address : ℕ) (t : X86Tss) (screen : Video) (i : ℕ)
    → 4000 ≤ i
    → dump_registers text trapno error_code address t screen i ≡ screen i
unfolding dump_registers draw_mask
dump_registers-outside text trapno error_code address t screen i out =
    let lines = copy_lines 25 0 0 text screen in
    fields_on_screen (shown_fields trapno error_code address t) (draw_mask text screen) i refl out
    ∙ set_attributes-outside 78 161 0x34 (set_attributes 2000 0 0x30 lines) i (omega arith)
    ∙ set_attributes-outside 2000 0 0x30 lines i (omega arith)
    ∙ copy_lines-outside 25 0 0 text screen i (omega arith)
