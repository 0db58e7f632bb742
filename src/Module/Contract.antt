-- ===== src/Module/Contract.antt =====
-- module.c: what a verified image has.
use rv.Prelude.{
  ℕ, zero, suc, ◌+◌, ◌%◌, ◌^◌, ◌≤◌, ◌<◌, ◌≡◌, refl, ap, ◌∙◌, ◌≢◌, ◌⊎◌, inl, inr, Bool, true, false,
  not, ◌||◌, some, List, [], ◌∷◌, arith, ltb, leb, ◌==◌, if◌then◌else◌, Bool-cases, Option-cases,
  all,
}
use rv.Module.{
  Entry, Verdict, ok, bad_magic, bad_crc, bad_abi, invalid, u16_at, header_of, tag_number,
  is_mandatory, next_entry, walk_loop, manifest_walk, tag_max, contract_visit, manifest_check,
  crc_around, mod_verify,
}

-- A tag that this system knows, or that is only advice.
abbrev pub is_understood : Entry → Bool
is_understood e = not (is_mandatory e.tag) || leb (tag_number e.tag) tag_max

-- The visitor that notes every entry.
abbrev pub collect : Entry → List Entry → Bool × List Entry
collect e es = (true, e ∷ es)

contract_visit-cases :
    (e : Entry)
    → (is_understood e ≡ true) × (contract_visit e 0 ≡ (true, 0))
      ⊎ (contract_visit e 0 ≡ (false, tag_number e.tag)) × (0 < tag_number e.tag)
unfolding contract_visit
contract_visit-cases e = elim (Bool-cases (is_mandatory e.tag)) [
  | inr advice ↦ inl (ground arith, rw advice refl)
  | inl mandatory ↦ elim (Bool-cases (leb (tag_number e.tag) tag_max)) [
    | inl known ↦ inl (ground arith, rw (mandatory, known) refl)
    | inr unknown ↦ inr (rw (mandatory, unknown) refl, ground arith)
  ]
]

walk_loop-understood :
    (image : List ℕ) (size k off : ℕ) (es rs : List Entry)
    → walk_loop contract_visit image size k off 0 ≡ some 0
    → walk_loop collect image size k off es ≡ some rs
    → all is_understood es ≡ true
    → all is_understood rs ≡ true
unfolding walk_loop
walk_loop-understood image size zero off es rs h g u = absurd (cc)
walk_loop-understood image size (suc k) off es rs h g u =
    let value_off = (off + 4) % 2 ^ 32 in
    let entry : Entry = record {
      tag = u16_at image off;
      at = value_off;
      len = u16_at image (off + 2);
    } in
    let after = (value_off + entry.len) % 2 ^ 32 in
    elim (Bool-cases (ltb size value_off)) [
      | inl past ↦ ground arith
      | inr here ↦ elim (Bool-cases (tag_number entry.tag == 0)) [
        | inl end ↦ ground arith
        | inr more ↦ elim (Bool-cases (ltb size after)) [
          | inl off_end ↦ ground arith
          | inr inside ↦ elim (contract_visit-cases entry) [
            | inr (stop, pos) ↦ absurd (ground arith)
            | inl (fine, go) ↦ elim (Bool-cases (leb (next_entry after) off)) [
              | inl stuck ↦ ground arith
              | inr on ↦
                  walk_loop-understood image size k (next_entry after) (entry ∷ es) rs
                    (ground arith) (ground arith) (ground arith)
            ]
          ]
        ]
      ]
    ]

manifest_check-walk :
    (image : List ℕ)
    → manifest_check image ≡ ok
    → manifest_walk contract_visit (some image) 0 ≡ some 0
unfolding manifest_check
manifest_check-walk image h = elim (Option-cases (manifest_walk contract_visit (some image) 0)) [
  | inl e ↦ absurd (ground arith)
  | inr (offender, e) ↦ elim (Bool-cases (offender == 0)) [
    | inl zeroed ↦ let none_found : offender ≡ 0 = ground arith in e ∙ ap some none_found
    | inr named ↦ absurd (ground arith)
  ]
]

manifest_walk-understood :
    (image : List ℕ) (rs : List Entry)
    → manifest_walk contract_visit (some image) 0 ≡ some 0
    → manifest_walk collect (some image) [] ≡ some rs
    → all is_understood rs ≡ true
unfolding manifest_walk
manifest_walk-understood image rs h g =
    let header = header_of image in
    elim (Bool-cases (header.manifest_offset == 0)) [
      | inl absent ↦ ground arith
      | inr there ↦
          elim (Bool-cases (
            ltb header.manifest_offset header.header_len
            || leb header.module_len header.manifest_offset)) [
              | inl outside ↦ ground arith
              | inr inside ↦
                  walk_loop-understood image header.module_len (header.module_len + 1)
                    header.manifest_offset [] rs (ground arith) (ground arith) refl
            ]
    ]

passes :
    (b : Bool) (v rest : Verdict)
    → v ≢ ok
    → (if b then v else rest) ≡ ok
    → (b ≡ false) × (rest ≡ ok)
passes true v rest bad h = absurd (bad h)
passes false v rest bad h = (refl, h)

-- The manifest of a verified image asks for nothing mandatory that the system does not know: every
-- entry that a walk over it visits is understood. The bytes that its header counts are all there,
-- its name and its entry point lie among them, and its checksum is right.
pub mod_verify-understood :
    (image : List ℕ) (avail : ℕ) (rs : List Entry)
    → mod_verify (some image) avail ≡ ok
    → manifest_walk collect (some image) [] ≡ some rs
    → let h = header_of image in
      (all is_understood rs ≡ true)
      × (h.module_len ≤ avail)
      × (h.entry_offset < h.module_len)
      × (h.name_offset < h.module_len)
      × (crc_around image h.module_len ≡ h.crc)
unfolding mod_verify
mod_verify-understood image avail rs h g =
    let header = header_of image in
    let (a, h1) = passes (ltb avail 40) invalid _ (λ e. absurd (cc)) h in
    let (b, h2) = passes (not (header.magic == 0x4d39_5652)) bad_magic _ (λ e. absurd (cc)) h1 in
    let (c, h3) = passes (not (header.header_len == 40)) invalid _ (λ e. absurd (cc)) h2 in
    let (d, h4) = passes (ltb 15 header.abi_version) bad_abi _ (λ e. absurd (cc)) h3 in
    let (f, h5) = passes (ltb header.module_len 40) invalid _ (λ e. absurd (cc)) h4 in
    let (all_there, h6) = passes (ltb avail header.module_len) invalid _ (λ e. absurd (cc)) h5 in
    let (entry, h7) =
      passes (leb header.module_len header.entry_offset) invalid _ (λ e. absurd (cc)) h6 in
    let (name, h8) =
      passes (leb header.module_len header.name_offset) invalid _ (λ e. absurd (cc)) h7 in
    let (sum, h9) =
      passes (not (crc_around image header.module_len == header.crc)) bad_crc _ (λ e. absurd (cc))
        h8 in
    (
      manifest_walk-understood image rs (manifest_check-walk image h9) g,
      ground arith,
      ground arith,
      ground arith,
      ground arith,
    )
