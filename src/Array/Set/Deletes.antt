-- ===== src/Array/Set/Deletes.antt =====
-- Searching and deleting in the array.
use dsalib.Core.{
  remove_one, is_member, ℕ, zero, suc, ◌+◌, ◌≤◌, ◌≡◌, refl, sym, ap, ◌∙◌, subst, inl, inr, true,
  false, Option, some, List, [], ◌∷◌, arith, ltb, if◌then◌else◌, Bool-cases, length, set, get_or,
  length-set, ℤ, pos, pos_part, ◌==ℤ◌, ◌-ℤ◌, ==ℤ_iff, eq_of_parts,
}
use dsalib.Core.{count, same, SameItems, int_laws}
use dsalib.Array.{read, read-pos, write-pos}
use dsalib.Array.Set.{Set, set_capacity, is_in_from, is_in_set, delete_from, delete_from_set}
use dsalib.Array.Set.Window.{window, move_last}

-- The array's first values are those of the list, each as often, and no value twice.
pub record Holds (s : Set) (q : List ℤ) : Type 0 where
  pub room : length s.items ≡ set_capacity
  pub counted : s.count ≡ pos (length q)
  pub fits : length q ≤ set_capacity
  pub same_items : SameItems (window s.items 0 (length q)) q
  pub distinct : (v : ℤ) → count v q ≤ 1

pub is_in_from_lem :
    (items : List ℤ) (item : ℤ) (n i : ℕ)
    → i + n ≤ length items
    → is_in_from items item n i ≡ some (if is_member item (window items i n) then pos 1 else pos 0)
unfolding is_in_from same
is_in_from_lem items item zero i h = refl
is_in_from_lem items item (suc n) i h =
    ground
      (arith, read-pos items i (omega arith), is_in_from_lem items item n (suc i) (omega arith))

pub is_in_set_lem :
    (s : Set) (q : List ℤ) (item : ℤ)
    → Holds s q
    → is_in_set s item ≡ some (if is_member item q then pos 1 else pos 0)
unfolding is_in_set
is_in_set_lem s q item h = rw h.counted (
    is_in_from_lem s.items item (length q) 0 (omega (arith, h.room, h.fits))
    ∙ ap (λ (n : ℕ). some (if ltb 0 n then pos 1 else pos 0)) (h.same_items item))

-- A deletion, from a place on at which the array has not the value before it.
pub record Deleted (s : Set) (item : ℤ) (n : ℕ) (r : Option (ℤ × Set)) : Type 0 where
  pub items' : List ℤ
  pub returned : r ≡ some (pos 1, record { items = items'; count = s.count -ℤ pos 1 })
  pub room : length items' ≡ length s.items
  pub one_less :
      (v : ℤ) → count v (window items' 0 n) + same v item ≡ count v (window s.items 0 (suc n))

pub later_member :
    (items : List ℤ) (item : ℤ) (n i : ℕ)
    → (get_or items i (pos 0) ==ℤ item) ≡ false
    → is_member item (window items i (suc n)) ≡ true
    → is_member item (window items (suc i) n) ≡ true
unfolding same
later_member items item n i other found = ground (arith, other, found)

pub delete_from_lem :
    (s : Set) (item : ℤ) (m n i : ℕ)
    → s.count ≡ pos (suc m)
    → i + n ≡ suc m
    → suc m ≤ length s.items
    → is_member item (window s.items i n) ≡ true
    → Deleted s item m (delete_from s item n i)
unfolding delete_from
delete_from_lem s item m zero i c h l found = absurd (ground (arith, found))
delete_from_lem s item m (suc n) i c h l found =
    let here = read-pos s.items i (omega arith) in
    elim (Bool-cases (get_or s.items i (pos 0) ==ℤ item)) [
      | inr other ↦
          let skip : delete_from s item (suc n) i ≡ delete_from s item n (suc i) =
            rw (delete_from, here, other) refl in
          subst (λ (r : Option (ℤ × Set)). Deleted s item m r) (sym skip)
            (delete_from_lem s item m n (suc i) c (omega arith) l
              (later_member s.items item n i other found))
      | inl equal ↦
          let e : get_or s.items i (pos 0) ≡ item =
            (==ℤ_iff (get_or s.items i (pos 0)) item).0 equal in
          let last = get_or s.items m (pos 0) in
          let place : s.count -ℤ pos 1 ≡ pos m = rw c (down m) in
          let at_end : read s.items (s.count -ℤ pos 1) ≡ some last =
            rw place (read-pos s.items m (omega arith)) in
          let moved = write-pos s.items i last (omega arith) in
          record {
            items' = set s.items i last;
            returned = rw (delete_from, here, equal, at_end, moved) refl;
            room = length-set s.items i last;
            one_less = λ v.
                ap (λ (x : ℤ). count v (window (set s.items i last) 0 m) + same v x) (sym e)
                ∙ move_last v s.items i m (omega arith) (omega arith);
          }
    ]
  where
    down : (n : ℕ) → pos (suc n) -ℤ pos 1 ≡ pos n
    down n = omega int_laws

-- The list without one occurrence.
pub count-remove_one :
    (v item : ℤ) (q : List ℤ)
    → is_member item q ≡ true
    → count v (remove_one item q) + same v item ≡ count v q
unfolding remove_one same
count-remove_one v item [] found = absurd (ground (arith, found))
count-remove_one v item (x ∷ q) found =
    ground (arith, found, count-remove_one v item q, eq_of_parts x item)

pub length-remove_one :
    (item : ℤ) (q : List ℤ) → is_member item q ≡ true → suc (length (remove_one item q)) ≡ length q
unfolding remove_one same
length-remove_one item [] found = absurd (ground (arith, found))
length-remove_one item (x ∷ q) found = ground (arith, found, length-remove_one item q)

pub delete_from_set-Holds :
    (s : Set) (q : List ℤ) (item : ℤ)
    → Holds s q
    → is_member item q ≡ true
    → (s' : Set) × (delete_from_set s item ≡ some (pos 1, s')) × Holds s' (remove_one item q)
unfolding delete_from_set
delete_from_set-Holds s q item h found =
    let m = length (remove_one item q) in
    let n = length-remove_one item q found in
    let inside : is_member item (window s.items 0 (length q)) ≡ true =
      ap (λ (k : ℕ). ltb 0 k) (h.same_items item) ∙ found in
    let d =
      delete_from_lem s item m (length q) 0 (h.counted ∙ ap pos (sym n)) (omega arith)
        (omega (arith, h.room, h.fits)) inside in
    (
      record { items = d.items'; count = s.count -ℤ pos 1 },
      ap (λ (n : ℤ). delete_from s item (pos_part n) 0) h.counted ∙ d.returned,
      record {
        room = d.room ∙ h.room;
        counted = ap (λ (x : ℤ). x -ℤ pos 1) (h.counted ∙ ap pos (sym n)) ∙ down m;
        fits = omega (arith, h.fits);
        same_items = λ v. omega (
          arith,
          d.one_less v,
          count-remove_one v item q found,
          h.same_items v,
          same_count s.items v (length q) m (sym n),
        );
        distinct = λ v. omega (arith, h.distinct v, count-remove_one v item q found);
      },
    )
  where
    down : (n : ℕ) → pos (suc n) -ℤ pos 1 ≡ pos n
    down n = omega int_laws

    same_count :
        (items : List ℤ) (v : ℤ) (n m : ℕ)
        → n ≡ suc m
        → count v (window items 0 n) ≡ count v (window items 0 (suc m))
    same_count items v n m e = ap (λ (n : ℕ). count v (window items 0 n)) e

pub delete_from-absent :
    (s : Set) (item : ℤ) (n i : ℕ)
    → i + n ≤ length s.items
    → is_member item (window s.items i n) ≡ false
    → delete_from s item n i ≡ some (pos 0, s)
unfolding delete_from same
delete_from-absent s item zero i h absent = refl
delete_from-absent s item (suc n) i h absent = ground (
  arith,
  absent,
  read-pos s.items i (omega arith),
  delete_from-absent s item n (suc i) (omega arith),
  eq_of_parts (get_or s.items i (pos 0)) item,
)

pub delete_from_set-absent :
    (s : Set) (q : List ℤ) (item : ℤ)
    → Holds s q
    → is_member item q ≡ false
    → delete_from_set s item ≡ some (pos 0, s)
unfolding delete_from_set
delete_from_set-absent s q item h absent =
    ap (λ (n : ℤ). delete_from s item (pos_part n) 0) h.counted
    ∙ delete_from-absent s item (length q) 0 (omega (arith, h.room, h.fits))
        (ap (λ (k : ℕ). ltb 0 k) (h.same_items item) ∙ absent)
