-- ===== src/Synthesizer/Publisher/Slices.antt =====
-- The slices of a pool hold its devices, in their order, and none holds too many.
use mathlib.Core.List.{map-append}
use native.Mathlib.Numerals.{unary_clauses}
use composite_dra_driver.Prelude.{
  append-nil, ℕ, zero, suc, ◌+◌, ◌-◌, ◌≤◌, ltb, List, [], ◌∷◌, ◌++◌, map, ◌≡◌, refl, ap, sym, ◌∙◌,
  arith, length, take, drop, length-take, length-drop, length-map, take-append-drop, take-all, All,
  concat, Bool-cases, inl, inr, if◌then◌else◌,
}
use composite_dra_driver.Synthesizer.Devices.{CompositeDevice}
use composite_dra_driver.Synthesizer.Publisher.{
  Device, Slice, to_device, to_slice, batches, build_slices, or_empty_slice, max_devices_per_slice,
}

module _ {ℓ} {A : Type ℓ} where
  drop-all : (n : ℕ) (xs : List A) → length xs ≤ n → drop n xs ≡ []
  drop-all zero [] h = refl
  drop-all zero (x ∷ xs) h = absurd (omega arith)
  drop-all (suc n) [] h = refl
  drop-all (suc n) (x ∷ xs) h = drop-all n xs (omega arith)

  drop-add : (m n : ℕ) (xs : List A) → drop (m + n) xs ≡ drop n (drop m xs)
  drop-add zero n xs = ap (λ k. drop k xs) (omega arith)
  drop-add (suc m) zero [] = simp unary_clauses refl
  drop-add (suc m) (suc n) [] = simp unary_clauses refl
  drop-add (suc m) n (x ∷ xs) =
      let e : suc m + n ≡ suc (m + n) = omega arith in ap (λ k. drop k (x ∷ xs)) e ∙ drop-add m n xs

  -- one round takes what the later rounds leave out
  take-append-past :
      (i k last : ℕ) (xs : List A)
      → last ≡ (if ltb (length xs) (i + k) then length xs else i + k)
      → take (last - i) (drop i xs) ++ drop (i + k) xs ≡ drop i xs
  take-append-past i k last xs e = elim (Bool-cases (ltb (length xs) (i + k))) [
    | inl short ↦
        let left : length (drop i xs) ≤ k = ground (arith, length-drop i xs) in
        let all : length (drop i xs) ≤ last - i = ground (arith, length-drop i xs) in
        rw (drop-add i k xs, drop-all k (drop i xs) left, take-all (last - i) (drop i xs) all)
          (append-nil (drop i xs))
    | inr long ↦
        let here : last - i ≡ k = ground arith in
        rw (here, drop-add i k xs) (take-append-drop k (drop i xs))
  ]

module _ (devices : List CompositeDevice) where
  -- The fuel is at least the number of devices that are left.
  concat-batches :
      (fuel i : ℕ) → length devices ≤ fuel + i → concat (batches fuel i devices) ≡ drop i devices
  unfolding batches
  concat-batches zero i h = sym (drop-all i devices (omega arith))
  concat-batches (suc fuel) i h = elim (Bool-cases (ltb i (length devices))) [
    | inl more ↦
        rw (more, concat-batches fuel (i + 128) (omega arith))
          (take-append-past i 128 _ devices refl)
    | inr done ↦ rw done (sym (drop-all i devices (ground arith)))
  ]

  batches-AllShort :
      (fuel i : ℕ) → All (λ batch. length batch ≤ max_devices_per_slice) (batches fuel i devices)
  unfolding batches
  batches-AllShort zero i = tt
  batches-AllShort (suc fuel) i = elim (Bool-cases (ltb i (length devices))) [
    | inl more ↦ rw more (
      ground (
        arith,
        length-take ((if ltb (length devices) (i + 128) then length devices else i + 128) - i)
            (drop i devices),
      ),
      batches-AllShort fuel (i + 128),
    )
    | inr done ↦ rw done tt
  ]

map-concat {ℓ κ} :
    {A : Type ℓ} {B : Type κ} (f : A → B) (xss : List (List A))
    → map f (concat xss) ≡ concat (map (map f) xss)
map-concat f [] = refl
map-concat f (xs ∷ xss) = map-append f xs (concat xss) ∙ ap (◌++◌ (map f xs)) (map-concat f xss)

abbrev pub slice_devices : List Slice → List (List Device)
slice_devices [] = []
slice_devices (s ∷ ss) = s.devices ∷ slice_devices ss

slice_devices-map :
    (bs : List (List CompositeDevice)) → slice_devices (map to_slice bs) ≡ map (map to_device) bs
unfolding to_slice
slice_devices-map [] = refl
slice_devices-map (b ∷ bs) = ap (◌∷◌ (map to_device b)) (slice_devices-map bs)

abbrev pub IsFilled : Slice → Type 0
IsFilled s = length s.devices ≤ max_devices_per_slice

All-or_empty : (ss : List Slice) → All IsFilled ss → All IsFilled (or_empty_slice ss)
unfolding or_empty_slice
All-or_empty [] h = (omega arith, tt)
All-or_empty (s ∷ ss) h = h

concat-or_empty :
    (ss : List Slice) → concat (slice_devices (or_empty_slice ss)) ≡ concat (slice_devices ss)
unfolding or_empty_slice
concat-or_empty [] = refl
concat-or_empty (s ∷ ss) = refl

some_slice : (ss : List Slice) → 1 ≤ length (or_empty_slice ss)
unfolding or_empty_slice
some_slice [] = omega arith
some_slice (s ∷ ss) = omega arith

filled :
    (bs : List (List CompositeDevice))
    → All (λ b. length b ≤ max_devices_per_slice) bs
    → All IsFilled (map to_slice bs)
unfolding to_slice
filled [] h = tt
filled (b ∷ bs) (p, h) = (omega (arith, length-map to_device b), filled bs h)

-- The slices that `buildSlices` returns hold the given devices, converted, each once and in their order;
-- none holds more than 128, and there is at least one.
pub build_slices_lem :
    (devices : List CompositeDevice)
    → (concat (slice_devices (build_slices devices)) ≡ map to_device devices)
      × All IsFilled (build_slices devices)
      × (1 ≤ length (build_slices devices))
unfolding build_slices
build_slices_lem devices =
    let bs = batches (length devices) 0 devices in
    (
      concat-or_empty (map to_slice bs)
          ∙ ap concat (slice_devices-map bs)
          ∙ sym (map-concat to_device bs)
          ∙ ap (map to_device) (concat-batches devices (length devices) 0 (omega arith)),
      All-or_empty _ (filled bs (batches-AllShort devices (length devices) 0)),
      some_slice (map to_slice bs),
    )
