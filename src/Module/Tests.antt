-- ===== src/Module/Tests.antt =====
-- module.c: a concrete image, with one entry in its manifest: a mandatory execution time.
use rv.Prelude.{
  ℕ, ◌+◌, ◌≤◌, ◌<◌, ◌≡◌, refl, Bool, true, false, none, some, List, [], ◌∷◌, arith, all,
}
use rv.Module.{
  Entry, ok, xor, crc_bits, crc_bytes, crc32, u8_at, u16_at, u32_at, header_of, walk_loop,
  manifest_walk, contract_visit, manifest_check, crc_around, mod_verify,
}
use rv.Module.Directory.{ModEntry, link_entry, unlink_entry, unlink_entry-link_entry}
use rv.Module.Walk.{manifest_walk-inside}
use rv.Module.Contract.{is_understood, mod_verify-understood}

abbrev image : List ℕ
image =
    82 ∷ 86 ∷ 57 ∷ 77 ∷ 40 ∷ 0 ∷ 15 ∷ 0 ∷ 49 ∷ 0 ∷ 0 ∷ 0 ∷ 48 ∷ 0 ∷ 0 ∷ 0 ∷ 48 ∷ 0 ∷ 0 ∷ 0 ∷ 0 ∷ 0
    ∷ 0 ∷ 0 ∷ 0 ∷ 0 ∷ 0 ∷ 0 ∷ 0 ∷ 0 ∷ 0 ∷ 0 ∷ 53 ∷ 38 ∷ 111 ∷ 95 ∷ 40 ∷ 0 ∷ 0 ∷ 0 ∷ 9 ∷ 128 ∷ 4 ∷ 0
    ∷ 200 ∷ 0 ∷ 0 ∷ 0 ∷ 0 ∷ []

abbrev entry : Entry
entry = record { tag = 0x8009; at = 44; len = 4 }

is_verified : mod_verify (some image) 49 ≡ ok
unfolding mod_verify header_of u8_at u16_at u32_at crc_around crc32 crc_bytes crc_bits xor
    manifest_check manifest_walk walk_loop contract_visit
is_verified = refl

mod_verify-understood_example :
    let h = header_of image in
    (all is_understood (entry ∷ []) ≡ true)
    × (h.module_len ≤ 49)
    × (h.entry_offset < h.module_len)
    × (h.name_offset < h.module_len)
    × (crc_around image h.module_len ≡ h.crc)
unfolding manifest_walk walk_loop header_of u8_at u16_at u32_at
mod_verify-understood_example = mod_verify-understood image 49 (entry ∷ []) is_verified refl

-- The number of entries.
abbrev tally : Entry → ℕ → Bool × ℕ
tally e n = (true, n + 1)

abbrev AnyCount : ℕ → Type 0
AnyCount n = 0 ≤ n

manifest_walk-inside_example : (r : ℕ) × (manifest_walk tally (some image) 0 ≡ some r) × AnyCount r
unfolding header_of u8_at u16_at u32_at
manifest_walk-inside_example =
    manifest_walk-inside tally AnyCount image 0 refl (ground arith) (λ e c i p. omega arith)
      (omega arith)

-- A module that one process runs.
abbrev running : ModEntry
running = record {
  name = b'a' ∷ [];
  revision = 1;
  size = 49;
  link_count = 1;
  image = some image;
  resident = false;
  in_place = false;
}

unlink_entry-link_entry_example :
    unlink_entry (link_entry false [] true none running).1 ≡ (ok, running)
unfolding link_entry
unlink_entry-link_entry_example =
    unlink_entry-link_entry false [] true none running refl (omega arith) refl
