-- ===== src/Module/Walk.antt =====
-- module.c: the walk over a manifest ends, and stays inside the module.
use rv.Prelude.{
  ℕ, zero, suc, ◌+◌, ◌%◌, ◌^◌, ◌<◌, ◌≡◌, refl, inl, inr, Bool, true, not, ◌&&◌, ◌||◌, some, List,
  [], ◌∷◌, arith, ltb, leb, ◌==◌, Bool-cases, get_or, all,
}
use rv.Module.{Entry, u8_at, u16_at, header_of, tag_number, next_entry, walk_loop, manifest_walk}

-- The entry lies behind the header of its own and ends inside a module of `size` bytes.
abbrev pub is_inside : ℕ → Entry → Bool
is_inside size e = leb 4 e.at && leb (e.at + e.len) size

-- A number that two bytes hold.
abbrev pub is_byte : ℕ → Bool
is_byte b = ltb b 256

byte_at : (image : List ℕ) (off : ℕ) → all is_byte image ≡ true → get_or image off 0 < 256
byte_at [] off h = ground arith
byte_at (b ∷ bs) zero h = ground arith
byte_at (b ∷ bs) (suc off) h = byte_at bs off (ground arith)

pub u16_at_small : (image : List ℕ) (off : ℕ) → all is_byte image ≡ true → u16_at image off < 2 ^ 16
unfolding u16_at u8_at
u16_at_small image off h = omega (arith, byte_at image off h, byte_at image (off + 1) h)

module _ {C : Type 0} (fn : Entry → C → Bool × C) (P : C → Type 0) (image : List ℕ) (size : ℕ)
    (bytes : all is_byte image ≡ true) (small : size < 2 ^ 31)
    (keeps : (e : Entry) (c : C) → is_inside size e ≡ true → P c → P (fn e c).1) where
  pub walk_loop-keeps :
      (k off : ℕ) (c : C)
      → 0 < k
      → size < k + off
      → off < 2 ^ 31 + 4
      → P c
      → (r : C) × (walk_loop fn image size k off c ≡ some r) × P r
  unfolding walk_loop
  walk_loop-keeps zero off c pos room low p = absurd (omega arith)
  walk_loop-keeps (suc k) off c pos room low p =
      let value_off = (off + 4) % 2 ^ 32 in
      let entry : Entry = record {
        tag = u16_at image off;
        at = value_off;
        len = u16_at image (off + 2);
      } in
      let after = (value_off + entry.len) % 2 ^ 32 in
      let len_small = u16_at_small image (off + 2) bytes in
      let at_off : value_off ≡ off + 4 = omega arith in
      elim (Bool-cases (ltb size value_off)) [
        | inl past ↦ (c, rw past refl, p)
        | inr here ↦ elim (Bool-cases (tag_number entry.tag == 0)) [
          | inl end ↦ (c, rw (here, end) refl, p)
          | inr more ↦ elim (Bool-cases (ltb size after)) [
            | inl off_end ↦ (c, rw (here, more, off_end) refl, p)
            | inr inside ↦
                let fits : is_inside size entry ≡ true = ground (arith, len_small) in
                let q = keeps entry c fits p in
                elim (Bool-cases (not (fn entry c).0)) [
                  | inl stop ↦ ((fn entry c).1, rw (here, more, inside, stop) refl, q)
                  | inr go ↦ elim (Bool-cases (leb (next_entry after) off)) [
                    | inl stuck ↦ ((fn entry c).1, rw (here, more, inside, go, stuck) refl, q)
                    | inr on ↦
                        let (r, e, s) =
                          walk_loop-keeps k (next_entry after) (fn entry c).1 (ground arith)
                            (ground arith) (ground arith) q in
                        (r, rw (here, more, inside, go, on) e, s)
                  ]
                ]
          ]
        ]
      ]

-- The walk always ends, and shows a visitor only entries that lie inside the module: what the
-- visitor keeps on such entries holds of the answer. The image is of bytes, and its length is below
-- 2 ^ 31.
pub manifest_walk-inside :
    {C : Type 0} (fn : Entry → C → Bool × C) (P : C → Type 0) (image : List ℕ) (ctx : C)
    → all is_byte image ≡ true
    → (header_of image).module_len < 2 ^ 31
    → ((e : Entry) (c : C) → is_inside (header_of image).module_len e ≡ true → P c → P (fn e c).1)
    → P ctx
    → (r : C) × (manifest_walk fn (some image) ctx ≡ some r) × P r
unfolding manifest_walk
manifest_walk-inside fn P image ctx bytes small keeps p =
    let h = header_of image in
    elim (Bool-cases (h.manifest_offset == 0)) [
      | inl absent ↦ (ctx, rw absent refl, p)
      | inr there ↦
          elim (Bool-cases
            (ltb h.manifest_offset h.header_len || leb h.module_len h.manifest_offset)) [
              | inl outside ↦ (ctx, rw (there, outside) refl, p)
              | inr inside ↦
                  let (r, e, q) =
                    walk_loop-keeps fn P image h.module_len bytes small keeps (h.module_len + 1)
                      h.manifest_offset ctx (omega arith) (omega arith) (ground arith) p in
                  (r, rw (there, inside) e, q)
            ]
    ]
