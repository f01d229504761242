-- ===== src/Cpu/Descriptors.antt =====
-- What the processor reads from a descriptor of a segment or of a gate.
use operating_system_concept.Base.{
  ℕ, ◌+◌, ◌-◌, ◌*◌, ◌/◌, ◌%◌, ◌^◌, ◌<◌, ◌≡◌, ◌∙◌, arith, ltb, if◌then◌else◌,
}
use operating_system_concept.Cpu.{fill_descriptor, fill_gate, or_present, scaled, granularity}

-- The fields of a descriptor, as the processor's manual gives them.
abbrev pub segment_base : ℕ → ℕ
segment_base entry = entry / 2 ^ 16 % 2 ^ 24 + entry / 2 ^ 56 % 2 ^ 8 * 2 ^ 24

abbrev pub segment_limit : ℕ → ℕ
segment_limit entry = entry % 2 ^ 16 + entry / 2 ^ 48 % 2 ^ 4 * 2 ^ 16

abbrev pub access_byte : ℕ → ℕ
access_byte entry = entry / 2 ^ 40 % 2 ^ 8

abbrev pub flags : ℕ → ℕ
flags entry = entry / 2 ^ 52 % 2 ^ 4

-- The last address of a segment: a limit with the granularity bit counts pages.
abbrev pub last_address : ℕ → ℕ
last_address entry =
    if ltb (flags entry) 8 then segment_limit entry else segment_limit entry * 2 ^ 12 + (2 ^ 12 - 1)

abbrev pub gate_selector : ℕ → ℕ
gate_selector entry = entry / 2 ^ 16 % 2 ^ 16

abbrev pub gate_offset : ℕ → ℕ
gate_offset entry = entry % 2 ^ 16 + entry / 2 ^ 48 % 2 ^ 16 * 2 ^ 16

-- The seven parts of a descriptor.
abbrev pub packed : ℕ → ℕ → ℕ → ℕ → ℕ → ℕ → ℕ → ℕ
packed limit_low base_low base_middle access limit_high sizebits base_high =
    (base_middle + access * 2 ^ 8 + limit_high * 2 ^ 16 + sizebits * 2 ^ 20 + base_high * 2 ^ 24)
      * 2 ^ 32
    + (limit_low + base_low * 2 ^ 16)

-- Parts that fit are read back.
pub packed-reads :
    (ll bl bm ac lh sz bh : ℕ)
    → ll < 2 ^ 16
    → bl < 2 ^ 16
    → bm < 2 ^ 8
    → ac < 2 ^ 8
    → lh < 2 ^ 4
    → sz < 2 ^ 4
    → bh < 2 ^ 8
    → (segment_base (packed ll bl bm ac lh sz bh) ≡ bl + bm * 2 ^ 16 + bh * 2 ^ 24)
      × (segment_limit (packed ll bl bm ac lh sz bh) ≡ ll + lh * 2 ^ 16)
      × (access_byte (packed ll bl bm ac lh sz bh) ≡ ac)
      × (flags (packed ll bl bm ac lh sz bh) ≡ sz)
packed-reads ll bl bm ac lh sz bh h₀ h₁ h₂ h₃ h₄ h₅ h₆ =
    (omega arith, omega arith, omega arith, omega arith)

module _ (addr limit access sizebits : ℕ) (a : addr < 2 ^ 32) (l : limit < 2 ^ 32) where
  fields :
      (segment_base (fill_descriptor addr limit access sizebits) ≡ addr)
      × (segment_limit (fill_descriptor addr limit access sizebits) ≡ scaled limit)
      × (access_byte (fill_descriptor addr limit access sizebits) ≡ or_present access)
      × (flags (fill_descriptor addr limit access sizebits) ≡ granularity limit sizebits)
  unfolding fill_descriptor
  fields =
      let scaled-fits : scaled limit < 2 ^ 20 = ground arith in
      let (base, end, rights, flag_bits) =
        packed-reads (scaled limit % 2 ^ 16) (addr % 2 ^ 32 % 2 ^ 16)
          (addr % 2 ^ 32 / 2 ^ 16 % 2 ^ 8) (or_present access) (scaled limit / 2 ^ 16 % 2 ^ 4)
          (granularity limit sizebits) (addr % 2 ^ 32 / 2 ^ 24) (omega arith) (omega arith)
          (omega arith) (omega arith) (omega arith) (ground arith) (omega arith) in
      (base ∙ omega (arith, a), end ∙ omega (arith, scaled-fits), rights, flag_bits)

-- The processor reads from a descriptor, for an address and a limit of 32 bits and size bits that
-- leave the granularity to `fill_descriptor`, the address that it was filled with, the rights with
-- the bit for a present segment, and as last address the limit up to 1 MB, and above that the end
-- of the limit's page.
pub fill_descriptor-reads :
    (addr limit access sizebits : ℕ)
    → addr < 2 ^ 32
    → limit < 2 ^ 32
    → sizebits < 8
    → (segment_base (fill_descriptor addr limit access sizebits) ≡ addr)
      × (access_byte (fill_descriptor addr limit access sizebits) ≡ access % 2 ^ 7 + 2 ^ 7)
      × (last_address (fill_descriptor addr limit access sizebits)
          ≡ (if ltb 0xf_ffff limit then limit - limit % 2 ^ 12 + (2 ^ 12 - 1) else limit))
fill_descriptor-reads addr limit access sizebits a l s =
    let (base, end, rights, flag_bits) = fields addr limit access sizebits a l in
    (base, rights, rw (flag_bits, end) (ground (arith, s)))

pub gate_selector-fill_gate :
    (offset selector access word_count : ℕ)
    → gate_selector (fill_gate offset selector access word_count) ≡ selector % 2 ^ 16
unfolding fill_gate
gate_selector-fill_gate offset selector access word_count = omega arith
