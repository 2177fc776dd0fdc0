-- ===== src/Boot/Scan.antt =====
-- What the scan for a vector table finds.
use xiaomi_feeder_iv.Common.{
  ℕ, ◌+◌, ◌%◌, ◌≤◌, ◌<◌, ◌≡◌, true, arith, Option-cases, u32, zero, suc, ◌*◌, ◌^◌, inl, inr, Option,
  some, if◌then◌else◌, Bool-cases, ap, ◌∙◌, false, none, Bool, ◌/◌,
}
use xiaomi_feeder_iv.Boot.{
  cm4_length, Header, word, stack_in_ram, boot_bank_vector_table_valid, boot_vector_scan_step,
  scan_from, boot_vector_scan_limit, boot_bank_scan_vector_table,
}

-- A header whose stack pointer is in RAM and whose entry point is an odd address of the bank.
pub record IsVectorTable (hdr : Header) (rom_base : ℕ) : Type 0 where
  pub stack : stack_in_ram (word hdr.b0 hdr.b1 hdr.b2 hdr.b3) ≡ true
  pub thumb : word hdr.b4 hdr.b5 hdr.b6 hdr.b7 % 2 ≡ 1
  pub from_base : rom_base ≤ word hdr.b4 hdr.b5 hdr.b6 hdr.b7
  pub in_bank : word hdr.b4 hdr.b5 hdr.b6 hdr.b7 < rom_base + cm4_length

accepted_header :
    (hdr : Header) (rom_base : ℕ)
    → rom_base + cm4_length < 2 ^ 32
    → boot_bank_vector_table_valid hdr rom_base ≡ true
    → IsVectorTable hdr rom_base
unfolding boot_bank_vector_table_valid
accepted_header hdr rom_base h e = record {
  stack = ground arith;
  thumb = ground arith;
  from_base = ground arith;
  in_bank = ground arith;
}

-- The scan came to an offset with a vector table.
pub record Found (read : ℕ → Option Header) (bank_rom_offset rom_base off n : ℕ) : Type 0 where
  pub step : ℕ
  pub within : step < n
  pub hdr : Header
  pub there : read (u32 (bank_rom_offset + (off + step * boot_vector_scan_step))) ≡ some hdr
  pub table : IsVectorTable hdr rom_base

module _ (read : ℕ → Option Header) (offset base n off : ℕ) where
  unreadable : read (u32 (offset + off)) ≡ none → scan_from read offset base (suc n) off ≡ false
  unfolding scan_from
  unreadable q =
      ap
        (λ r. elim r as (λ _. Bool) [
          | none ↦ false
          | some hdr ↦
              if boot_bank_vector_table_valid hdr base
              then true
              else scan_from read offset base n (off + boot_vector_scan_step)
        ])
        q

  readable :
      (hdr : Header)
      → read (u32 (offset + off)) ≡ some hdr
      → scan_from read offset base (suc n) off ≡ (
          if boot_bank_vector_table_valid hdr base
          then true
          else scan_from read offset base n (off + boot_vector_scan_step))
  unfolding scan_from
  readable hdr q =
      ap
        (λ r. elim r as (λ _. Bool) [
          | none ↦ false
          | some hdr ↦
              if boot_bank_vector_table_valid hdr base
              then true
              else scan_from read offset base n (off + boot_vector_scan_step)
        ])
        q

scan_from-Found :
    (read : ℕ → Option Header) (bank_rom_offset rom_base n off : ℕ)
    → rom_base + cm4_length < 2 ^ 32
    → scan_from read bank_rom_offset rom_base n off ≡ true
    → Found read bank_rom_offset rom_base off n
scan_from-Found read offset base zero off h e = absurd (unfold scan_from in cc e)
scan_from-Found read offset base (suc n) off h e = elim (Option-cases (read (u32 (offset + off)))) [
  | inl q ↦ absurd (cc (e, unreadable read offset base n off q))
  | inr (hdr, q) ↦
      let r = readable read offset base n off hdr q in
      elim (Bool-cases (boot_bank_vector_table_valid hdr base)) [
        | inl t ↦ record {
          step = 0;
          within = omega arith;
          hdr = hdr;
          there = ap (λ k. read (u32 (offset + k))) (omega arith) ∙ q;
          table = accepted_header hdr base h t;
        }
        | inr f ↦
            let next =
              scan_from-Found read offset base n (off + boot_vector_scan_step) h (cc (e, r, f)) in
            record {
              step = suc (next.step);
              within = omega (arith, next.within);
              hdr = next.hdr;
              there = ap (λ k. read (u32 (offset + k))) (omega arith) ∙ next.there;
              table = next.table;
            }
      ]
]

-- A scan that says yes read a vector table for the bank at one of the offsets 0, 4, ... below
-- `boot_vector_scan_limit`: a stack pointer in RAM, and an odd entry point inside the bank.
pub scan_vector_table-Found :
    (read : ℕ → Option Header) (bank_rom_offset rom_base : ℕ)
    → rom_base + cm4_length < 2 ^ 32
    → boot_bank_scan_vector_table (some read) bank_rom_offset rom_base ≡ true
    → Found read bank_rom_offset rom_base 0 (boot_vector_scan_limit / boot_vector_scan_step)
unfolding boot_bank_scan_vector_table
scan_vector_table-Found read bank_rom_offset rom_base h e =
    scan_from-Found read bank_rom_offset rom_base (boot_vector_scan_limit / boot_vector_scan_step) 0
      h e
