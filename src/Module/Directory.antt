-- ===== src/Module/Directory.antt =====
-- module.c: the directory of modules, and the links that processes hold on them.
-- An entry is named by its place in the directory.
use rv.Prelude.{
  ℕ, ◌+◌, ◌-◌, ◌%◌, ◌^◌, ◌<◌, ◌≡◌, Bool, true, false, not, ◌&&◌, ◌||◌, Option, none, some, List, [],
  ◌∷◌, arith, ltb, ◌==◌, if◌then◌else◌, str_eq,
}
use rv.Module.{
  Verdict, ok, bad_magic, bad_crc, bad_abi, invalid, contract, not_found, no_memory, io, no_end,
  manifest_u8, mod_verify,
}

-- `rv9_mod_entry_t`: `image` is what lies in memory, or `none` for NULL.
pub record ModEntry : Type 0 where
  pub name : List ℕ
  pub revision : ℕ
  pub size : ℕ
  pub link_count : ℕ
  pub image : Option (List ℕ)
  pub resident : Bool
  pub in_place : Bool

pub dir_append : ModEntry → List ModEntry → List ModEntry
dir_append entry [] = entry ∷ []
dir_append entry (e ∷ es) = e ∷ dir_append entry es

-- The loop of `rv9_mod_find`: the place and the revision of the best so far.
pub find_from : List ℕ → ℕ → Option (ℕ × ℕ) → List ModEntry → Option (ℕ × ℕ)
find_from name i best [] = best
find_from name i none (e ∷ es) =
    find_from name (i + 1) (if str_eq e.name name then some (i, e.revision) else none) es
find_from name i (some (j, revision)) (e ∷ es) =
    find_from name (i + 1)
      (if str_eq e.name name && ltb revision e.revision
        then some (i, e.revision)
        else some (j, revision))
      es

pub mod_find : List ℕ → List ModEntry → Option (ℕ × ℕ)
mod_find name dir = find_from name 0 none dir

-- RV9_MTAG_CLASS is 5, and RV9_MCLASS_REALTIME is 3.
abbrev pub is_realtime_class : Option ℕ → Bool
is_realtime_class none = false
is_realtime_class (some cls) = cls == 3

abbrev pub is_ok : Verdict → Bool
is_ok v = elim v [
  | ok ↦ true
  | bad_magic ↦ false
  | bad_crc ↦ false
  | bad_abi ↦ false
  | invalid ↦ false
  | contract ↦ false
  | not_found ↦ false
  | no_memory ↦ false
  | io ↦ false
  | no_end ↦ false
]

abbrev pub loaded : Bool → List ℕ → ModEntry → ModEntry
loaded in_place image e = record e { image = some image; in_place = in_place; link_count = 1 }

-- The copy of `rv9_mod_link`: `mem` is whether `rv9_alloc_exec` gave memory, and `read` what
-- `esp_partition_read` read.
pub link_copy : Bool → Option (List ℕ) → ModEntry → Verdict × ModEntry
link_copy mem none e = (if mem then io else no_memory, e)
link_copy mem (some image) e =
    let v = mod_verify (some image) e.size in
    if not mem then (no_memory, e) else if is_ok v then (ok, loaded false image e) else (v, e)

-- `rv9_mod_link` of the entry that was found; `mapped` is the store where it is mapped.
unfoldable pub link_entry : Bool → List ℕ → Bool → Option (List ℕ) → ModEntry → Verdict × ModEntry
link_entry xip mapped mem read e = elim e.image [
  | some image ↦ (ok, record e { link_count = (e.link_count + 1) % 2 ^ 32 })
  | none ↦
      if xip
        && (not (is_realtime_class (manifest_u8 mapped 5))
            && is_ok (mod_verify (some mapped) e.size))
      then (ok, loaded true mapped e)
      else link_copy mem read e
]

pub unlink_entry : ModEntry → Verdict × ModEntry
unlink_entry e =
    let n = e.link_count - 1 in
    if e.link_count == 0
    then (invalid, e)
    else if n == 0 && not e.resident && not e.in_place
    then (ok, record e { link_count = n; image = none })
    else if n == 0 && e.in_place
    then (ok, record e { link_count = n; image = none; in_place = false })
    else (ok, record e { link_count = n })

-- An image that is not in memory has no links; one that nobody links is there for good.
abbrev pub is_settled : ModEntry → Bool
is_settled e = elim e.image [
  | none ↦ e.link_count == 0 && not e.resident && not e.in_place
  | some image ↦ ltb 0 e.link_count && not e.resident || e.resident && not e.in_place
]

-- A link that is granted and given back leaves the entry as it was, wherever the image came from. The
-- entry must be settled: an image that is not in memory has no links, and one that nobody links is
-- resident; and its count must have room for one more.
pub unlink_entry-link_entry :
    (xip : Bool) (mapped : List ℕ) (mem : Bool) (read : Option (List ℕ)) (e : ModEntry)
    → is_settled e ≡ true
    → e.link_count < 2 ^ 32 - 1
    → (link_entry xip mapped mem read e).0 ≡ ok
    → unlink_entry (link_entry xip mapped mem read e).1 ≡ (ok, e)
unfolding link_entry unlink_entry link_copy
unlink_entry-link_entry xip mapped mem none e s small h = ground arith
unlink_entry-link_entry xip mapped mem (some image) e s small h = ground arith
