-- ===== src/Array/Tests.antt =====
-- Runs of array.c on arrays of four items in two blocks.
use sandnix.Prelude.{
  ℕ, ◌*◌, ◌<◌, ◌≡◌, ◌≢◌, refl, true, false, Option, none, some, [], ◌∷◌, ◌++◌, arith,
}
use sandnix.Array.{
  Block, Array, Memory, array_init, array_get, array_set, array_used, get_used_index,
  get_free_index, array_destroy, set_item, destroy_items, freed_items, freed_block, read_freed,
}
use sandnix.Array.Inv.{IsValid}
use sandnix.Array.Update.{IsUpdate, array_set-IsUpdate}
use sandnix.Array.Search.{FirstUsed, get_used_index-FirstUsed}
use sandnix.Array.Init.{array_init-IsValid}
use sandnix.Array.Free.{get_free_index_misses, get_free_index_first}
use sandnix.Array.Destroy.{array_destroy_reads_freed}

-- Nothing is stored.
abbrev vacant : Array
vacant = record { size = 4; scale = 2; blocks = none ∷ none ∷ [] }

abbrev block : Block
block = record { ref = 1; items = 0 ∷ 7 ∷ [] }

-- 7 is stored at index 1.
abbrev filled : Array
filled = record { size = 4; scale = 2; blocks = some block ∷ none ∷ [] }

vacant-IsValid : IsValid vacant
vacant-IsValid = record {
  scale_pos = omega arith;
  size = refl;
  small = omega arith;
  slots = (tt, (tt, tt));
}

filled-IsValid : IsValid filled
filled-IsValid = record {
  scale_pos = omega arith;
  size = refl;
  small = omega arith;
  slots = (record { full = refl; counted = refl; used = omega arith }, (tt, tt));
}

array_set_runs :
    array_set vacant 1 7 (record { has_block = true; has_items = true }) ≡ some (7, filled)
unfolding array_set set_item
array_set_runs = refl

array_used_runs : (array_used filled 0 ≡ some false) × (array_used filled 1 ≡ some true)
unfolding array_used
array_used_runs = (refl, refl)

array_set-IsUpdate_example :
    IsUpdate filled 0 9 (array_set filled 0 9 (record { has_block = true; has_items = true }))
array_set-IsUpdate_example = array_set-IsUpdate filled filled-IsValid 0 (omega arith) 9

abbrev nine : ℕ
nine = 9

abbrev starved : Memory
starved = record { has_block = true; has_items = false }

get_used_index-FirstUsed_example :
    (r : Option ℕ) × (get_used_index filled 0 ≡ some r) × FirstUsed (array_get filled) 0 4 r
get_used_index-FirstUsed_example = get_used_index-FirstUsed filled filled-IsValid 0

array_init-IsValid_example :
    (a : Array) × (array_init 5 true ≡ some a)
    × IsValid a
    × (2 * 5 < a.size)
    × ((i : ℕ) → array_get a i ≡ some 0)
array_init-IsValid_example = array_init-IsValid 5 (omega arith)

get_free_index_misses_example :
    (get_free_index vacant ≡ some (false, none)) × (array_get vacant 0 ≡ some 0) × (0 < 4)
get_free_index_misses_example = get_free_index_misses vacant vacant-IsValid refl

get_free_index_first_example :
    (n : ℕ) × (get_free_index filled ≡ some (true, some n))
    × (array_get filled n ≡ some 0)
    × ((m : ℕ) → m < n → array_get filled m ≢ some 0)
get_free_index_first_example = get_free_index_first filled filled-IsValid block refl (omega arith)

array_destroy_reads_freed_example :
    array_destroy filled true
    ≡ some (destroy_items true block.items ++ freed_items 0 ∷ freed_block 0 ∷ read_freed 0 ∷ [])
array_destroy_reads_freed_example =
    array_destroy_reads_freed filled filled-IsValid true block refl (omega arith) (omega arith)
