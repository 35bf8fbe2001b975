-- ===== src/Ara/Allocator/Shapes.antt =====
-- The rooms' shapes: their guests and their limits.
use native.Mathlib.Nat.{div-add-mod', mod-lt}
use mathlib.Core.Option.{some-injective}
use vaketta_backend.Prelude.{
  lt-or-le, lt→ltb, le→ltb, lt→leb, le→leb, ℕ, zero, suc, ◌+◌, ◌-◌, ◌*◌, ◌≤◌, ◌≡◌, refl, sym, ap,
  ◌∙◌, arith, Option, none, some, List, [], ◌∷◌, map, ltb, leb, ◌==◌, if◌then◌else◌, min, length,
  replicate, sum_by, sum_by-append, All, All-append, length-append, Bool-cases, inl, inr,
}
use vaketta_backend.Ara.Types.{AllocationConfig}
use vaketta_backend.Ara.Distribute.{
  sum, base_first_room_count, distribute_into_rooms, distribute_into_rooms_lem,
  units-le-base_first_room_count,
}
use vaketta_backend.Ara.Allocator.{
  Strategy, base_first, max_fill, Shape, base_a, max_a, wanted_rooms, adult_room_count,
  fill_children, overflow_rooms, zip_shapes, child_shape, room_shapes,
}

zeros :
    (n m : ℕ)
    → (length (replicate {A = ℕ} n 0) ≡ n)
      × (sum (replicate n 0) ≡ 0)
      × All (λ c. c ≤ m) (replicate n 0)
zeros zero m = (refl, refl, tt)
zeros (suc n) m = let (l, s, b) = zeros n m in (ap suc l, omega arith, (omega arith, b))

pub fill_children_lem :
    (rooms m n : ℕ)
    → let (counts, left) = fill_children rooms m n in
      (length counts ≡ rooms) × (sum counts + left ≡ n) × All (λ c. c ≤ m) counts
unfolding fill_children
fill_children_lem zero m n = omega arith
fill_children_lem (suc rooms) m n =
    grind (arith, fill_children_lem rooms m (n - min m n), zeros rooms m)

-- The limits of a room: the adults' limit of the node, and its children's limit.
pub record FitsIn (config : AllocationConfig) (s : Shape) : Type 0 where
  pub adults_le : s.adults ≤ max_a config
  pub children_le : s.children ≤ config.max_children

-- What the rooms with children only are to be: they house the children left, within the limit.
abbrev pub Overflows : ℕ → AllocationConfig → Option (List ℕ) → Type 0
Overflows left config none = Unit
Overflows left config (some overflow) =
    (sum overflow ≡ left) × All (λ c. c ≤ config.max_children) overflow

pub overflow_rooms-Overflows :
    (left : ℕ) (config : AllocationConfig)
    → config.base_children ≤ config.max_children
    → Overflows left config (overflow_rooms left config)
unfolding overflow_rooms
overflow_rooms-Overflows left config h =
    let m = config.max_children in
    let cb = if ltb 0 config.base_children then config.base_children else m in
    let small : cb ≤ m = ground arith in
    elim (Bool-cases (left == 0)) [
      | inl z ↦ let e : 0 ≡ left = ground arith in rw z (e, tt)
      | inr nz ↦ rw nz (elim (Bool-cases (m == 0)) [
        | inl none_fit ↦ rw none_fit tt
        | inr some_fit ↦
            let rooms = base_first_room_count left cb m in
            let placed =
              distribute_into_rooms_lem left rooms cb m small
                (units-le-base_first_room_count left cb m (ground arith) small) in
            rw some_fit (placed.1, placed.2)
      ])
    ]

zip_shapes_lem :
    (config : AllocationConfig) (as_ cs : List ℕ)
    → length as_ ≡ length cs
    → All (λ a. a ≤ max_a config) as_
    → All (λ c. c ≤ config.max_children) cs
    → let shapes = zip_shapes as_ cs in
      (sum_by (λ s. s.adults) shapes ≡ sum as_)
      × (sum_by (λ s. s.children) shapes ≡ sum cs)
      × (length shapes ≡ length as_)
      × All (FitsIn config) shapes
unfolding zip_shapes
zip_shapes_lem config [] [] e p q = (refl, refl, refl, tt)
zip_shapes_lem config [] (c ∷ cs) e p q = absurd (omega arith)
zip_shapes_lem config (a ∷ as_) [] e p q = absurd (omega arith)
zip_shapes_lem config (a ∷ as_) (c ∷ cs) e p q =
    let (u, v, l, f) = zip_shapes_lem config as_ cs (omega arith) p.1 q.1 in
    (omega arith, omega arith, omega arith, (record { adults_le = p.0; children_le = q.0 }, f))

child_shapes_lem :
    (config : AllocationConfig) (cs : List ℕ)
    → All (λ c. c ≤ config.max_children) cs
    → let shapes = map child_shape cs in
      (sum_by (λ s. s.adults) shapes ≡ 0)
      × (sum_by (λ s. s.children) shapes ≡ sum cs)
      × (length shapes ≡ length cs)
      × All (FitsIn config) shapes
unfolding child_shape
child_shapes_lem config [] q = (refl, refl, refl, tt)
child_shapes_lem config (c ∷ cs) q =
    let (u, v, l, f) = child_shapes_lem config cs q.1 in
    (
      omega arith,
      omega arith,
      omega arith,
      (record { adults_le = omega arith; children_le = q.0 }, f),
    )

max-base_a : (config : AllocationConfig) → base_a config ≤ max_a config
max-base_a config = omega arith

-- Everyone has a place in the shapes, one room a shape, and no shape is over the limits.
pub room_shapes_lem :
    (adults rooms children left : ℕ) (config : AllocationConfig) (counts overflow : List ℕ)
    → adults ≤ rooms * max_a config
    → fill_children rooms config.max_children children ≡ (counts, left)
    → Overflows left config (some overflow)
    → let shapes = room_shapes adults rooms config counts overflow in
      (sum_by (λ s. s.adults) shapes ≡ adults)
      × (sum_by (λ s. s.children) shapes ≡ children)
      × (length shapes ≡ rooms + length overflow)
      × All (FitsIn config) shapes
unfolding room_shapes
room_shapes_lem adults rooms children left config counts overflow h filled fits =
    let out = distribute_into_rooms adults rooms (base_a config) (max_a config) in
    let (len, total, caps) =
      distribute_into_rooms_lem adults rooms (base_a config) (max_a config) (max-base_a config) h in
    let (len', total', caps') =
      rw filled at (fill_children_lem rooms config.max_children children) in
    let (u, v, l, f) = zip_shapes_lem config out counts (len ∙ sym len') caps caps' in
    let (u', v', l', f') = child_shapes_lem config overflow fits.1 in
    let front = zip_shapes out counts in
    let back = map child_shape overflow in
    (
      omega (arith, sum_by-append (λ s. s.adults) front back),
      omega (arith, sum_by-append (λ s. s.children) front back),
      omega (arith, length-append front back),
      All-append (FitsIn config) front back f f',
    )

wanted_rooms-enough :
    (strategy : Strategy) (adults : ℕ) (config : AllocationConfig)
    → adults ≤ wanted_rooms strategy adults config * max_a config
unfolding wanted_rooms
wanted_rooms-enough base_first adults config =
    units-le-base_first_room_count adults (base_a config) (max_a config) (omega arith)
      (max-base_a config)
wanted_rooms-enough max_fill adults config =
    let m = max_a config in
    omega (arith, div-add-mod' (adults + m - 1) m, mod-lt (adults + m - 1) {m = m} (omega arith))

-- The rooms opened for the adults can hold them, and there are as many.
pub adult_room_count-enough :
    (strategy : Strategy) (adults available : ℕ) (config : AllocationConfig) (r : ℕ)
    → adult_room_count strategy adults available config ≡ some r
    → adults ≤ r * max_a config
unfolding adult_room_count
adult_room_count-enough strategy adults available config r e =
    let enough = wanted_rooms-enough strategy adults config in
    elim (Bool-cases (adults == 0)) [
      | inl z ↦ ground arith
      | inr nz ↦
          let e' = rw nz at e in
          elim (Bool-cases (leb (wanted_rooms strategy adults config) available)) [
            | inl w ↦
                let i : wanted_rooms strategy adults config ≡ r = some-injective _ _ (rw w at e') in
                rw i at enough
            | inr nw ↦
                let e'' = rw nw at e' in
                elim (lt-or-le (available * max_a config) adults) [
                  | inl few ↦ absurd (none≢ (rw (lt→ltb _ _ few) at e''))
                  | inr fits ↦
                      let i : available ≡ r = some-injective _ _ (rw (le→ltb _ _ fits) at e'') in
                      rw (← i) fits
                ]
          ]
    ]
  where
    none≢ : {n : ℕ} → none ≡ some n → ⊥
    none≢ h = cc

-- Where the free rooms can hold the adults, rooms are opened for them, no more than are free.
pub adult_room_count_total :
    (strategy : Strategy) (adults available : ℕ) (config : AllocationConfig)
    → adults ≤ available * max_a config
    → (r : ℕ) × (adult_room_count strategy adults available config ≡ some r) × (r ≤ available)
unfolding adult_room_count
adult_room_count_total strategy adults available config fits =
    let wanted = wanted_rooms strategy adults config in
    elim (Bool-cases (adults == 0)) [
      | inl z ↦ (0, rw z, omega arith)
      | inr nz ↦ elim (lt-or-le available wanted) [
        | inl few ↦ (available, rw (nz, lt→leb _ _ few, le→ltb _ _ fits), omega arith)
        | inr enough ↦ (wanted, rw (nz, le→leb _ _ enough), enough)
      ]
    ]
