-- ===== src/Module.antt =====
-- components/rv9_module/src/module.c and crc32.c: the image of a module, its manifest, and whether
-- it may be run.
-- An image is a list of bytes, little-endian, and a pointer into it is an offset. A walk has its
-- visitor as an argument, which answers whether to go on, and has as many rounds as bytes.
pub mod Walk
pub mod Contract
pub mod Directory
mod Tests
use mathlib.Core.Option
use rv.Prelude.{
  ℕ, zero, suc, ◌+◌, ◌-◌, ◌*◌, ◌/◌, ◌%◌, ◌^◌, Bool, true, false, not, ◌||◌, Option, none, some,
  List, [], ◌∷◌, map, ltb, leb, ◌==◌, if◌then◌else◌, get_or, take, drop,
}

-- `^` on numbers of `w` bits.
pub xor : ℕ → ℕ → ℕ → ℕ
xor zero a b = 0
xor (suc w) a b = (a + b) % 2 + 2 * xor w (a / 2) (b / 2)

-- One of the eight rounds of the inner loop of `rv9_crc32`.
abbrev pub crc_bit : ℕ → ℕ
crc_bit crc = xor 32 (crc / 2) (if crc % 2 == 1 then 0xedb8_8320 else 0)

pub crc_bits : ℕ → ℕ → ℕ
crc_bits zero crc = crc
crc_bits (suc k) crc = crc_bits k (crc_bit crc)

pub crc_bytes : ℕ → List ℕ → ℕ
crc_bytes crc [] = crc
crc_bytes crc (b ∷ bs) = crc_bytes (crc_bits 8 (xor 32 crc b)) bs

-- `rv9_crc32`; `~` is taken in 32 bits.
pub crc32 : ℕ → List ℕ → ℕ
crc32 crc bytes = 2 ^ 32 - 1 - crc_bytes (2 ^ 32 - 1 - crc) bytes

pub u8_at : List ℕ → ℕ → ℕ
u8_at image off = get_or image off 0

pub u16_at : List ℕ → ℕ → ℕ
u16_at image off = u8_at image off + 256 * u8_at image (off + 1)

pub u32_at : List ℕ → ℕ → ℕ
u32_at image off = u16_at image off + 65536 * u16_at image (off + 2)

-- `rv9_mod_header_t`, the fields that are checked.
pub record Header : Type 0 where
  pub magic : ℕ
  pub header_len : ℕ
  pub abi_version : ℕ
  pub module_len : ℕ
  pub name_offset : ℕ
  pub entry_offset : ℕ
  pub crc : ℕ
  pub manifest_offset : ℕ

pub header_of : List ℕ → Header
header_of image = record {
  magic = u32_at image 0;
  header_len = u16_at image 4;
  abi_version = u16_at image 6;
  module_len = u32_at image 8;
  name_offset = u32_at image 12;
  entry_offset = u32_at image 16;
  crc = u32_at image 32;
  manifest_offset = u32_at image 36;
}

-- An entry as a visitor sees it; `at` is where its value lies.
pub record Entry : Type 0 where
  pub tag : ℕ
  pub at : ℕ
  pub len : ℕ

-- `RV9_MTAG_NUMBER`, `RV9_MTAG_MANDATORY` and `RV9_MTAG_MAX`.
abbrev pub tag_number : ℕ → ℕ
tag_number tag = tag % 2 ^ 15

abbrev pub is_mandatory : ℕ → Bool
is_mandatory tag = not (tag / 2 ^ 15 % 2 == 0)

-- `value_off + e.len`, rounded up to four bytes.
abbrev pub next_entry : ℕ → ℕ
next_entry next = (next + (4 - next % 4) % 4) % 2 ^ 32

-- The loop of `manifest_walk`, with the rounds that are left; `none` if they run out.
pub walk_loop : {C : Type 0} → (Entry → C → Bool × C) → List ℕ → ℕ → ℕ → ℕ → C → Option C
walk_loop fn image size zero off ctx = none
walk_loop fn image size (suc k) off ctx =
    let value_off = (off + 4) % 2 ^ 32 in
    let entry : Entry = record {
      tag = u16_at image off;
      at = value_off;
      len = u16_at image (off + 2);
    } in
    let after = (value_off + entry.len) % 2 ^ 32 in
    let (go_on, ctx') = fn entry ctx in
    let rest = walk_loop fn image size k (next_entry after) ctx' in
    if ltb size value_off
    then some ctx
    else if tag_number entry.tag == 0
    then some ctx
    else if ltb size after
    then some ctx
    else if not go_on
    then some ctx'
    else if leb (next_entry after) off
    then some ctx'
    else rest

-- A NULL image is `none`.
pub manifest_walk : {C : Type 0} → (Entry → C → Bool × C) → Option (List ℕ) → C → Option C
manifest_walk fn none ctx = some ctx
manifest_walk fn (some image) ctx =
    let h = header_of image in
    let off = h.manifest_offset in
    let walked = walk_loop fn image h.module_len (h.module_len + 1) off ctx in
    if off == 0
    then some ctx
    else if ltb off h.header_len || leb h.module_len off
    then some ctx
    else walked

-- `find_ctx_t`.
pub record Find : Type 0 where
  pub want : ℕ
  pub after : Option ℕ
  pub armed : Bool
  pub found : Option ℕ
  pub len : ℕ

abbrev pub is_at : Option ℕ → ℕ → Bool
is_at none at = false
is_at (some a) at = a == at

pub find_visit : Entry → Find → Bool × Find
find_visit e c =
    if not (tag_number e.tag == c.want)
    then (true, c)
    else if not c.armed
    then (true, record c { armed = is_at c.after e.at || c.armed })
    else (false, record c { found = some e.at; len = e.len })

abbrev pub found_in : Option Find → Option (ℕ × ℕ)
found_in none = none
found_in (some c) = Option.map (λ (at : ℕ). (at, c.len)) c.found

-- Where the value lies, and its length.
pub manifest_find : Option (List ℕ) → ℕ → Option ℕ → Option (ℕ × ℕ)
manifest_find image tag after = found_in (
    manifest_walk find_visit image (record {
      want = tag_number tag;
      after = after;
      armed = elim after [ none ↦ true | some a ↦ false ];
      found = none;
      len = 0;
    }))

abbrev pub sized : (List ℕ → ℕ → ℕ) → ℕ → List ℕ → Option (ℕ × ℕ) → Option ℕ
sized read size image none = none
sized read size image (some (at, len)) = if len == size then some (read image at) else none

pub manifest_u32 : List ℕ → ℕ → Option ℕ
manifest_u32 image tag = sized u32_at 4 image (manifest_find (some image) tag none)

pub manifest_u8 : List ℕ → ℕ → Option ℕ
manifest_u8 image tag = sized u8_at 1 image (manifest_find (some image) tag none)

abbrev pub tag_max : ℕ
tag_max = 0x16

-- The offender is the state of the visitor.
pub contract_visit : Entry → ℕ → Bool × ℕ
contract_visit e offender =
    if not (is_mandatory e.tag)
    then (true, offender)
    else if leb (tag_number e.tag) tag_max
    then (true, offender)
    else (false, tag_number e.tag)

pub data Verdict : Type 0 where
  ok bad_magic bad_crc bad_abi invalid contract not_found no_memory io no_end : Verdict

pub manifest_check : List ℕ → Verdict
manifest_check image = elim (manifest_walk contract_visit (some image) 0) [
  | some offender ↦ if not (offender == 0) then contract else ok
  | none ↦ no_end
]

-- The checksum over the three spans around the field itself, which is at 32.
pub crc_around : List ℕ → ℕ → ℕ
crc_around image size =
    let before = crc32 0 (take 32 image) in
    let zeroed = crc32 before (0 ∷ 0 ∷ 0 ∷ 0 ∷ []) in
    crc32 zeroed (take (size - 32 - 4) (drop 36 image))

-- `avail` is how many bytes there are.
pub mod_verify : Option (List ℕ) → ℕ → Verdict
mod_verify none avail = invalid
mod_verify (some image) avail =
    let h = header_of image in
    let rest = manifest_check image in
    if ltb avail 40
    then invalid
    else if not (h.magic == 0x4d39_5652)
    then bad_magic
    else if not (h.header_len == 40)
    then invalid
    else if ltb 15 h.abi_version
    then bad_abi
    else if ltb h.module_len 40
    then invalid
    else if ltb avail h.module_len
    then invalid
    else if leb h.module_len h.entry_offset
    then invalid
    else if leb h.module_len h.name_offset
    then invalid
    else if not (crc_around image h.module_len == h.crc)
    then bad_crc
    else rest
